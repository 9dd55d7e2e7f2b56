-- ===== src/Cycle/Sound.antt =====
-- A search that answers True has found a walk from a node to itself.
use aipcs_mcp.Prelude.{
  same, keep, elem, ℕ, zero, suc, ◌≡◌, refl, ◌∙◌, inl, inr, true, false, not, List, [], ◌∷◌, arith,
}
use aipcs_mcp.Cycle.Search.{
  unmarked, any_visit, visit, Marks, Outcome, cycle, clear, Walk, edge, step,
}
use aipcs_mcp.Cycle.Cases.{any_visit-clear, any_visit-cycle, visit-clear, visit-cycle}

module _ {K : Type 0} (d : Discrete K) (targets : K → List K) where
  pub Walk-snoc :
      {a b c : K} → Walk d targets a b → elem d c (targets b) ≡ true → Walk d targets a c
  Walk-snoc (edge h) e = step h (edge e)
  Walk-snoc (step h w) e = step h (Walk-snoc w e)

  keep-absent :
      (node : K) (xs : List K) → elem d node xs ≡ false → keep (λ x. not (same d x node)) xs ≡ xs
  keep-absent node [] h = refl
  keep-absent node (x ∷ xs) h = ground (arith, keep-absent node xs)

  keep-node :
      (node : K) (xs : List K)
      → elem d node xs ≡ false
      → keep (λ x. not (same d x node)) (node ∷ xs) ≡ xs
  keep-node node xs h = ground (arith, keep-absent node xs)

  -- A visit that finds nothing leaves the branch as it was.
  any_visit-active_of :
      (v : K → Marks K → Outcome K)
      → ((node : K) (m m' : Marks K) → v node m ≡ clear m' → m'.active ≡ m.active)
      → (nodes : List K) (m m' : Marks K) → any_visit v nodes m ≡ clear m'
      → m'.active ≡ m.active
  any_visit-active_of v keeps [] m m' h = ground arith
  any_visit-active_of v keeps (node ∷ nodes) m m' h =
      let (k, e, r) = any_visit-clear v node nodes m h in
      any_visit-active_of v keeps nodes k m' r ∙ keeps node m k e

  pub visit-active :
      (fuel : ℕ) (node : K) (m m' : Marks K)
      → visit d targets fuel node m ≡ clear m'
      → m'.active ≡ m.active
  visit-active zero node m m' h = unfold visit in ground arith
  visit-active (suc fuel) node m m' h = elim (visit-clear d targets fuel node m h) [
    | inl (_, e) ↦ cc
    | inr (k, fresh, _, inner, e) ↦
        let same_branch =
          any_visit-active_of (visit d targets fuel) (visit-active fuel) (targets node) _ k inner in
        rw e (rw same_branch (keep-node node m.active fresh))
  ]

  pub any_visit-active :
      (fuel : ℕ) (nodes : List K) (m m' : Marks K)
      → any_visit (visit d targets fuel) nodes m ≡ clear m'
      → m'.active ≡ m.active
  any_visit-active fuel = any_visit-active_of (visit d targets fuel) (visit-active fuel)

  -- Every node of the branch leads to `node`.
  abbrev pub Leads : List K → K → Type 0
  Leads active node = (x : K) → elem d x active ≡ true → Walk d targets x node

  Leads-below :
      (active : List K) (node t : K)
      → Leads active node
      → elem d t (targets node) ≡ true
      → Leads (node ∷ active) t
  Leads-below active node t leads i x at_x = elim (d x node) [
    | yes e ↦ rw e (edge i)
    | no n ↦ Walk-snoc (leads x (ground arith)) i
  ]

  -- `us` holds the nodes that are searched, and the targets of its members.
  module _ (us : List K)
      (within : (a b : K)
        → elem d a us ≡ true
        → elem d b (targets a) ≡ true
        → elem d b us ≡ true) where
    abbrev Loops : Type 0
    Loops = (a : K) × (elem d a us ≡ true) × Walk d targets a a

    any_visit-sound :
        (fuel : ℕ) (active : List K)
        → ((node : K) (m : Marks K)
            → m.active ≡ active
            → elem d node us ≡ true
            → Leads active node
            → visit d targets fuel node m ≡ cycle
            → Loops)
        → (nodes : List K) (m : Marks K) → m.active ≡ active
        → ((node : K) → elem d node nodes ≡ true → (elem d node us ≡ true) × Leads active node)
        → any_visit (visit d targets fuel) nodes m ≡ cycle
        → Loops
    any_visit-sound fuel active sound [] m e leads h = absurd (cc)
    any_visit-sound fuel active sound (node ∷ nodes) m e leads h =
        elim (any_visit-cycle (visit d targets fuel) node nodes m h) [
          | inl found ↦ let (i, l) = leads node (ground arith) in sound node m e i l found
          | inr (k, left, found) ↦
              any_visit-sound fuel active sound nodes k (visit-active fuel node m k left ∙ e)
                (λ n i. leads n (ground arith)) found
        ]

    visit-sound :
        (fuel : ℕ) (node : K) (m : Marks K)
        → elem d node us ≡ true
        → Leads m.active node
        → visit d targets fuel node m ≡ cycle
        → Loops
    visit-sound zero node m i leads h = absurd (unfold visit in cc)
    visit-sound (suc fuel) node m i leads h = elim (visit-cycle d targets fuel node m h) [
      | inl back ↦ (node, i, leads node back)
      | inr inner ↦
          any_visit-sound fuel (node ∷ m.active)
            (λ n k e j l found. visit-sound fuel n k j (rw e l) found) (targets node) _ refl
            (λ t j. (within node t i j, Leads-below m.active node t leads j)) inner
    ]

    pub search_sound :
        (fuel : ℕ) (nodes : List K)
        → ((node : K) → elem d node nodes ≡ true → elem d node us ≡ true)
        → any_visit (visit d targets fuel) nodes unmarked ≡ cycle
        → (a : K) × (elem d a us ≡ true) × Walk d targets a a
    search_sound fuel nodes i h =
        any_visit-sound fuel [] (λ n k e j l found. visit-sound fuel n k j (rw e l) found) nodes
          unmarked refl (λ n j. (i n j, λ x e. absurd (cc))) h
