-- ===== src/Cycle/Search.antt =====
-- The search and what it looks for.
use aipcs_mcp.Prelude.{
  if◌then◌else◌, same, length, keep, elem, ℕ, zero, suc, ◌≡◌, Bool, true, false, not, List, [], ◌∷◌,
}

-- `active` are the nodes of the current branch, `complete` the nodes that have been left.
pub record Marks (K : Type 0) : Type 0 where
  pub active : List K
  pub complete : List K

-- `visit` returned True, or False with the marks that it leaves. The fuel bounds the depth.
pub data Outcome (K : Type 0) : Type 0 where
  cycle : Outcome K
  clear : Marks K → Outcome K
  out_of_fuel : Outcome K

abbrev pub unmarked : {K : Type 0} → Marks K
unmarked = record { active = []; complete = [] }

-- `any(visit(node) for node in nodes)`
abbrev pub any_visit : {K : Type 0} → (K → Marks K → Outcome K) → List K → Marks K → Outcome K
any_visit visit [] m = clear m
any_visit visit (node ∷ nodes) m = elim (visit node m) [
  | cycle ↦ cycle
  | clear m' ↦ any_visit visit nodes m'
  | out_of_fuel ↦ out_of_fuel
]

module _ {K : Type 0} (d : Discrete K) (targets : K → List K) where
  -- `active.remove(node)`, `complete.add(node)`
  abbrev pub leave : K → Outcome K → Outcome K
  leave node cycle = cycle
  leave node (clear m) =
      clear
        (record { active = keep (λ x. not (same d x node)) m.active; complete = node ∷ m.complete })
  leave node out_of_fuel = out_of_fuel

  unfoldable pub visit : ℕ → K → Marks K → Outcome K
  visit zero node m = out_of_fuel
  visit (suc fuel) node m =
      let inner = leave node (
        any_visit (visit fuel) (targets node)
          (record { active = node ∷ m.active; complete = m.complete })) in
      if elem d node m.active then cycle else if elem d node m.complete then clear m else inner

  -- The depth is at most the number of nodes, of which `us` has all. `out_of_fuel` is never the
  -- outcome: see `Fuel`.
  unfoldable pub has_directed_cycle : List K → List K → Bool
  unfolding visit
  has_directed_cycle us nodes = elim (any_visit (visit (suc (length us))) nodes unmarked) [
    | cycle ↦ true
    | clear m ↦ false
    | out_of_fuel ↦ true
  ]

  -- A walk of at least one edge.
  pub data Walk : K → K → Type 0 where
    edge : {a b : K} → elem d b (targets a) ≡ true → Walk a b
    step : {a b c : K} → elem d b (targets a) ≡ true → Walk b c → Walk a c
