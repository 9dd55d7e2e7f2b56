-- ===== src/Cycle/Correct.antt =====
-- The search decides whether some node lies on a cycle.
use aipcs_mcp.Prelude.{length, elem, suc, ◌≡◌, ◌≢◌, ◌↔◌, inl, inr, true, false, List, arith}
use aipcs_mcp.Cycle.Search.{
  unmarked, any_visit, visit, has_directed_cycle, out_of_fuel, Walk, edge, step,
}
use aipcs_mcp.Cycle.Cases.{Outcome-cases}
use aipcs_mcp.Cycle.Sound.{search_sound}
use aipcs_mcp.Cycle.Complete.{search_complete}
use aipcs_mcp.Cycle.Fuel.{search_fuel}

-- `us` has the nodes that the search starts from and is closed under the edges, and each node of
-- `us` with an edge out of it is a start.
pub record IsSearchable {K : Type 0} (d : Discrete K) (targets : K → List K) (us nodes : List K)
    : Type 0 where
  pub starts : (a : K) → elem d a nodes ≡ true → elem d a us ≡ true
  pub within : (a b : K) → elem d a us ≡ true → elem d b (targets a) ≡ true → elem d b us ≡ true
  pub sources : (a b : K) → elem d a us ≡ true → elem d b (targets a) ≡ true → elem d a nodes ≡ true

module _ {K : Type 0} (d : Discrete K) (targets : K → List K) (us nodes : List K) where
  out_edge : {a b : K} → Walk d targets a b → (t : K) × (elem d t (targets a) ≡ true)
  out_edge (edge {b = b} e) = (b, e)
  out_edge (step {b = b} e w) = (b, e)

  no_cycle-iff-Walk :
      IsSearchable d targets us nodes
      → (has_directed_cycle d targets us nodes ≡ false)
        ↔ ((a : K) → elem d a us ≡ true → ¬ Walk d targets a a)
  unfolding has_directed_cycle
  no_cycle-iff-Walk s =
      elim (Outcome-cases (any_visit (visit d targets (suc (length us))) nodes unmarked)) [
        | inl e ↦
            let (a, i, w) = search_sound d targets us s.within (suc (length us)) nodes s.starts e in
            (λ h. absurd (ground arith), λ none. absurd (none a i w))
        | inr (inl e) ↦ absurd (search_fuel d targets us s.within nodes s.starts e)
        | inr (inr (m, e)) ↦ (
          λ h a i w.
              let (t, o) = out_edge w in
              search_complete d targets (suc (length us)) nodes m e a (s.sources a t i o) w,
          λ none. ground arith,
        )
      ]

  -- If `us` has the starting nodes and is closed under the edges, and each node of `us` with an
  -- edge out of it is a starting node, the search never runs out of fuel, and it answers False
  -- exactly when no walk of one edge or more leads from a node of `us` back to it.
  pub has_directed_cycle-iff-Walk :
      IsSearchable d targets us nodes
      → (any_visit (visit d targets (suc (length us))) nodes unmarked ≢ out_of_fuel)
        × (has_directed_cycle d targets us nodes ≡ false
            ↔ ((a : K) → elem d a us ≡ true → ¬ Walk d targets a a))
  has_directed_cycle-iff-Walk s =
      (search_fuel d targets us s.within nodes s.starts, no_cycle-iff-Walk s)
