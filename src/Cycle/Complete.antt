-- ===== src/Cycle/Complete.antt =====
-- A search that answers False leaves its nodes in an order in which no walk returns.
use aipcs_mcp.Prelude.{elem, ℕ, zero, suc, ◌≡◌, inl, inr, true, List, [], ◌∷◌, arith}
use aipcs_mcp.Cycle.Search.{unmarked, any_visit, visit, Marks, Outcome, clear, Walk, edge, step}
use aipcs_mcp.Cycle.Cases.{any_visit-clear, visit-clear}

module _ {K : Type 0} (d : Discrete K) (targets : K → List K) where
  -- Each node's targets come behind it.
  abbrev pub IsTopological : List K → Type 0
  IsTopological [] = Unit
  IsTopological (c ∷ rest) =
      ((t : K) → elem d t (targets c) ≡ true → elem d t rest ≡ true) × IsTopological rest

  closed :
      (l : List K) (a b : K)
      → IsTopological l
      → elem d a l ≡ true
      → elem d b (targets a) ≡ true
      → elem d b l ≡ true
  closed [] a b t h e = cc
  closed (c ∷ l) a b t h e = elim (d a c) [
    | yes p ↦ ground (arith, t.0 b (rw p at e))
    | no n ↦ ground (arith, closed l a b t.1 (ground arith) e)
  ]

  closed-Walk :
      (l : List K) {a b : K}
      → IsTopological l
      → elem d a l ≡ true
      → Walk d targets a b
      → elem d b l ≡ true
  closed-Walk l {a = a} {b = b} t h (edge e) = closed l a b t h e
  closed-Walk l {a = a} t h (step {b = b} e w) = closed-Walk l t (closed l a b t h e) w

  first_step :
      (l : List K) {a b : K}
      → IsTopological l
      → ((t : K) → elem d t (targets a) ≡ true → elem d t l ≡ true)
      → Walk d targets a b
      → elem d b l ≡ true
  first_step l {b = b} t into (edge e) = into b e
  first_step l t into (step {b = b} e w) = closed-Walk l t (into b e) w

  pub no_loop : (l : List K) (a : K) → IsTopological l → elem d a l ≡ true → ¬ Walk d targets a a
  no_loop [] a t h w = cc
  no_loop (c ∷ l) a t h w = elim (d a c) [
    | yes p ↦ no_loop l a t.1 (first_step l t.1 (λ x e. t.0 x (rw p at e)) w) w
    | no n ↦ no_loop l a t.1 (ground arith) w
  ]

  record Completes (nodes : List K) (m m' : Marks K) : Type 0 where
    topological : IsTopological m'.complete
    grows : (x : K) → elem d x m.complete ≡ true → elem d x m'.complete ≡ true
    holds : (x : K) → elem d x nodes ≡ true → elem d x m'.complete ≡ true

  any_visit-Completes :
      (v : K → Marks K → Outcome K)
      → ((node : K) (m m' : Marks K)
          → v node m ≡ clear m'
          → IsTopological m.complete
          → Completes (node ∷ []) m m')
      → (nodes : List K) (m m' : Marks K) → any_visit v nodes m ≡ clear m'
      → IsTopological m.complete
      → Completes nodes m m'
  any_visit-Completes v one [] m m' h t =
      let e : m ≡ m' = ground arith in
      record { topological = rw (← e) t; grows = λ x i. rw (← e) i; holds = λ x i. cc }
  any_visit-Completes v one (node ∷ nodes) m m' h t =
      let (k, e, r) = any_visit-clear v node nodes m h in
      let first = one node m k e t in
      let others = any_visit-Completes v one nodes k m' r first.topological in
      record {
        topological = others.topological;
        grows = λ x i. others.grows x (first.grows x i);
        holds = λ x i. elim (d x node) [
          | yes p ↦ others.grows x (first.holds x (ground arith))
          | no n ↦ others.holds x (ground arith)
        ];
      }

  visit-Completes :
      (fuel : ℕ) (node : K) (m m' : Marks K)
      → visit d targets fuel node m ≡ clear m'
      → IsTopological m.complete
      → Completes (node ∷ []) m m'
  visit-Completes zero node m m' h t = absurd (unfold visit in cc)
  visit-Completes (suc fuel) node m m' h t = elim (visit-clear d targets fuel node m h) [
    | inl (old, e) ↦
        rw e (record { topological = t; grows = λ x i. i; holds = λ x i. ground arith })
    | inr (k, _, _, inner, e) ↦
        let below =
          any_visit-Completes (visit d targets fuel) (visit-Completes fuel) (targets node) _ k inner
            t in
        rw e (record {
          topological = (below.holds, below.topological);
          grows = λ x i. ground (arith, below.grows x i);
          holds = λ x i. ground arith;
        })
  ]

  pub search_complete :
      (fuel : ℕ) (nodes : List K) (m : Marks K)
      → any_visit (visit d targets fuel) nodes unmarked ≡ clear m
      → (a : K) → elem d a nodes ≡ true
      → ¬ Walk d targets a a
  search_complete fuel nodes m h a i =
      let c =
        any_visit-Completes (visit d targets fuel) (visit-Completes fuel) nodes unmarked m h tt in
      no_loop m.complete a c.topological (c.holds a i)
