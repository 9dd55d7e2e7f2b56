-- ===== src/Cycle/Cases.antt =====
-- What each outcome of a visit says of the branch that was taken.
use aipcs_mcp.Prelude.{
  same, keep, elem, ℕ, suc, ◌≡◌, refl, ◌⊎◌, inl, inr, true, false, not, List, ◌∷◌, arith,
}
use aipcs_mcp.Cycle.Search.{any_visit, visit, Marks, Outcome, cycle, clear, out_of_fuel}

pub Outcome-cases :
    {K : Type 0} (o : Outcome K) → (o ≡ cycle) ⊎ (o ≡ out_of_fuel) ⊎ ((m : Marks K) × (o ≡ clear m))
Outcome-cases cycle = inl refl
Outcome-cases out_of_fuel = inr (inl refl)
Outcome-cases (clear m) = inr (inr (m, refl))

module _ {K : Type 0} (v : K → Marks K → Outcome K) (node : K) (nodes : List K) (m : Marks K) where
  pub any_visit-clear :
      {m' : Marks K}
      → any_visit v (node ∷ nodes) m ≡ clear m'
      → (k : Marks K) × (v node m ≡ clear k) × (any_visit v nodes k ≡ clear m')
  any_visit-clear h = elim (Outcome-cases (v node m)) [
    | inl e ↦ absurd (cc (rw (e, any_visit) at h))
    | inr (inl e) ↦ absurd (cc (rw (e, any_visit) at h))
    | inr (inr (k, e)) ↦ (k, e, rw (e, any_visit) at h)
  ]

  pub any_visit-cycle :
      any_visit v (node ∷ nodes) m ≡ cycle
      → (v node m ≡ cycle) ⊎ ((k : Marks K) × (v node m ≡ clear k) × (any_visit v nodes k ≡ cycle))
  any_visit-cycle h = elim (Outcome-cases (v node m)) [
    | inl e ↦ inl e
    | inr (inl e) ↦ absurd (cc (rw (e, any_visit) at h))
    | inr (inr (k, e)) ↦ inr (k, e, rw (e, any_visit) at h)
  ]

  pub any_visit-out_of_fuel :
      any_visit v (node ∷ nodes) m ≡ out_of_fuel
      → (v node m ≡ out_of_fuel)
        ⊎ ((k : Marks K) × (v node m ≡ clear k) × (any_visit v nodes k ≡ out_of_fuel))
  any_visit-out_of_fuel h = elim (Outcome-cases (v node m)) [
    | inl e ↦ absurd (cc (rw (e, any_visit) at h))
    | inr (inl e) ↦ inl e
    | inr (inr (k, e)) ↦ inr (k, e, rw (e, any_visit) at h)
  ]

module _ {K : Type 0} (d : Discrete K) (targets : K → List K) (fuel : ℕ) (node : K)
    (m : Marks K) where
  -- The visits below a node that enters the branch.
  abbrev pub inner_visits : Outcome K
  inner_visits =
      any_visit (visit d targets fuel) (targets node)
        (record { active = node ∷ m.active; complete = m.complete })

  pub visit-clear :
      {m' : Marks K}
      → visit d targets (suc fuel) node m ≡ clear m'
      → (elem d node m.complete ≡ true) × (m' ≡ m)
        ⊎ ((k : Marks K) × (elem d node m.active ≡ false)
            × (elem d node m.complete ≡ false)
            × (inner_visits ≡ clear k)
            × (m' ≡ record {
              active = keep (λ x. not (same d x node)) k.active;
              complete = node ∷ k.complete;
            }))
  unfolding visit
  visit-clear h = elim (Outcome-cases inner_visits) [
    | inl e ↦ ground arith
    | inr (inl e) ↦ ground arith
    | inr (inr (k, e)) ↦ ground arith
  ]

  pub visit-cycle :
      visit d targets (suc fuel) node m ≡ cycle
      → (elem d node m.active ≡ true) ⊎ (inner_visits ≡ cycle)
  unfolding visit
  visit-cycle h = elim (Outcome-cases inner_visits) [
    | inl e ↦ inr e
    | inr (inl e) ↦ ground arith
    | inr (inr (k, e)) ↦ ground arith
  ]

  pub visit-out_of_fuel :
      visit d targets (suc fuel) node m ≡ out_of_fuel
      → (elem d node m.active ≡ false) × (inner_visits ≡ out_of_fuel)
  unfolding visit
  visit-out_of_fuel h = elim (Outcome-cases inner_visits) [
    | inl e ↦ ground arith
    | inr (inl e) ↦ (ground arith, e)
    | inr (inr (k, e)) ↦ ground arith
  ]
