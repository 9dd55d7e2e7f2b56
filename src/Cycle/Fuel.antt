-- ===== src/Cycle/Fuel.antt =====
-- The fuel of the search suffices: a branch holds each node once.
use aipcs_mcp.Prelude.{
  if◌then◌else◌, length, elem, ℕ, zero, suc, ◌≤◌, ◌<◌, ◌≡◌, refl, ◌∙◌, ◌≢◌, inl, inr, true, false,
  List, [], ◌∷◌, arith,
}
use aipcs_mcp.Cycle.Search.{unmarked, any_visit, visit, Marks, out_of_fuel}
use aipcs_mcp.Cycle.Cases.{any_visit-out_of_fuel, visit-out_of_fuel}
use aipcs_mcp.Cycle.Sound.{visit-active}

module _ {K : Type 0} (d : Discrete K) (targets : K → List K) where
  -- The nodes that are not on the branch.
  abbrev free : List K → List K → ℕ
  free [] active = 0
  free (u ∷ us) active = if elem d u active then free us active else suc (free us active)

  free-le : (us active : List K) (node : K) → free us (node ∷ active) ≤ free us active
  free-le [] active node = omega arith
  free-le (u ∷ us) active node = ground (arith, free-le us active node)

  free-lt :
      (us active : List K) (node : K)
      → elem d node us ≡ true
      → elem d node active ≡ false
      → free us (node ∷ active) < free us active
  free-lt [] active node h n = cc
  free-lt (u ∷ us) active node h n = elim (d node u) [
    | yes p ↦ rw (← p) (ground (arith, free-le us active node))
    | no q ↦ ground (arith, free-lt us active node, free-le us active node)
  ]

  free-length : (us active : List K) → free us active ≤ length us
  free-length [] active = omega arith
  free-length (u ∷ us) active = ground (arith, free-length us active)

  module _ (us : List K)
      (within : (a b : K)
        → elem d a us ≡ true
        → elem d b (targets a) ≡ true
        → elem d b us ≡ true) where
    any_visit_fuel :
        (fuel : ℕ) (active : List K)
        → ((node : K) (m : Marks K)
            → m.active ≡ active
            → elem d node us ≡ true
            → visit d targets fuel node m ≢ out_of_fuel)
        → (nodes : List K) (m : Marks K) → m.active ≡ active
        → ((x : K) → elem d x nodes ≡ true → elem d x us ≡ true)
        → any_visit (visit d targets fuel) nodes m ≢ out_of_fuel
    any_visit_fuel fuel active one [] m e i h = cc
    any_visit_fuel fuel active one (node ∷ nodes) m e i h =
        elim (any_visit-out_of_fuel (visit d targets fuel) node nodes m h) [
          | inl out ↦ one node m e (i node (ground arith)) out
          | inr (k, left, out) ↦
              any_visit_fuel fuel active one nodes k (visit-active d targets fuel node m k left ∙ e)
                (λ x j. i x (ground arith)) out
        ]

    visit_fuel :
        (fuel : ℕ) (node : K) (m : Marks K)
        → elem d node us ≡ true
        → free us m.active < fuel
        → visit d targets fuel node m ≢ out_of_fuel
    visit_fuel zero node m i b h = elim b [ ]
    visit_fuel (suc fuel) node m i b h =
        let (fresh, out) = visit-out_of_fuel d targets fuel node m h in
        any_visit_fuel fuel (node ∷ m.active)
          (λ n k e j.
            visit_fuel fuel n k j (rw e (omega (arith, free-lt us m.active node i fresh))))
          (targets node) _ refl (λ x j. within node x i j) out

    pub search_fuel :
        (nodes : List K)
        → ((x : K) → elem d x nodes ≡ true → elem d x us ≡ true)
        → any_visit (visit d targets (suc (length us))) nodes unmarked ≢ out_of_fuel
    search_fuel nodes i =
        any_visit_fuel (suc (length us)) []
          (λ n k e j. visit_fuel (suc (length us)) n k j (rw e (omega (arith, free-length us []))))
          nodes unmarked refl i
