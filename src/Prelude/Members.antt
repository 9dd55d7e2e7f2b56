-- ===== src/Prelude/Members.antt =====
-- Membership in the results of the list functions.
use mathlib.Core.Path.{◌≡◌, refl, ap, sym, subst}
use mathlib.Core.Logic.{◌⊎◌, inl, inr}
use Prim.Native.Nat.{ℕ, zero, suc}
use mathlib.Core.Bool.{Bool, true, false, ◌||◌}
use mathlib.Core.List.{List, [], ◌∷◌, ◌++◌, map}
use mathlib.Core.Option.{some}
use native.Mathlib.Omega.{arith}
use aipcs_mcp.Prelude.Tests.{same, eq_of_same, same_self, Bool-cases, Option-cases}
use aipcs_mcp.Prelude.Lists.{take, drop, keep, elem, unique, insert_sorted, sorted, dict_get}

pub or-true : (a b : Bool) → (a || b) ≡ true → (a ≡ true) ⊎ (b ≡ true)
or-true true b h = inl refl
or-true false b h = inr h

module _ {ℓ} {A : Type ℓ} where
  pub take-drop : (n : ℕ) (xs : List A) → xs ≡ take n xs ++ drop n xs
  take-drop zero xs = refl
  take-drop (suc n) [] = refl
  take-drop (suc n) (x ∷ xs) = ap (λ t. x ∷ t) (take-drop n xs)

  module _ (d : Discrete A) where
    pub elem-insert_sorted :
        (le : A → A → Bool) (a x : A) (xs : List A)
        → elem d a (x ∷ xs) ≡ true
        → elem d a (insert_sorted le x xs) ≡ true
    elem-insert_sorted le a x [] h = h
    elem-insert_sorted le a x (y ∷ ys) h = ground (arith, elem-insert_sorted le a x ys)

    pub elem-sorted :
        (le : A → A → Bool) (a : A) (xs : List A)
        → elem d a xs ≡ true
        → elem d a (sorted le xs) ≡ true
    elem-sorted le a [] h = h
    elem-sorted le a (x ∷ xs) h =
        elem-insert_sorted le a x (sorted le xs) (ground (arith, elem-sorted le a xs))

    pub elem-unique : (a : A) (xs : List A) → elem d a xs ≡ true → elem d a (unique d xs) ≡ true
    elem-unique a [] h = h
    elem-unique a (x ∷ xs) h = elim (Bool-cases (elem d x xs)) [
      | inl e ↦ elim (or-true (same d a x) (elem d a xs) h) [
        | inl s ↦
            rw e (elem-unique a xs (subst (λ y. elem d y xs ≡ true) (sym (eq_of_same d a x s)) e))
        | inr i ↦ rw e (elem-unique a xs i)
      ]
      | inr e ↦ rw e (elim (or-true (same d a x) (elem d a xs) h) [
        | inl s ↦ ground arith
        | inr i ↦ ground (arith, elem-unique a xs i)
      ])
    ]

    pub elem-of_unique : (a : A) (xs : List A) → elem d a (unique d xs) ≡ true → elem d a xs ≡ true
    elem-of_unique a [] h = h
    elem-of_unique a (x ∷ xs) h = ground (arith, elem-of_unique a xs)

    pub elem-of_insert_sorted :
        (le : A → A → Bool) (a x : A) (xs : List A)
        → elem d a (insert_sorted le x xs) ≡ true
        → elem d a (x ∷ xs) ≡ true
    elem-of_insert_sorted le a x [] h = h
    elem-of_insert_sorted le a x (y ∷ ys) h = ground (arith, elem-of_insert_sorted le a x ys)

    pub elem-of_sorted :
        (le : A → A → Bool) (a : A) (xs : List A)
        → elem d a (sorted le xs) ≡ true
        → elem d a xs ≡ true
    elem-of_sorted le a [] h = h
    elem-of_sorted le a (x ∷ xs) h =
        ground (arith, elem-of_sorted le a xs, elem-of_insert_sorted le a x (sorted le xs) h)

    pub elem-append :
        (a : A) (xs ys : List A) → (elem d a xs || elem d a ys) ≡ true → elem d a (xs ++ ys) ≡ true
    elem-append a [] ys h = h
    elem-append a (x ∷ xs) ys h = ground (arith, elem-append a xs ys)

module _ {ℓ κ} {A : Type ℓ} {K : Type κ} (d : Discrete K) (key : A → K) where
  -- The name of an item that a dictionary has is one of its names.
  pub elem-dict_get :
      (xs : List A) (k : K) {a : A} → dict_get d key xs k ≡ some a → elem d k (map key xs) ≡ true
  elem-dict_get [] k h = cc
  elem-dict_get (x ∷ xs) k h = elim (Option-cases (dict_get d key xs k)) [
    | inl e ↦ ground arith
    | inr (b, e) ↦ ground (arith, elem-dict_get xs k e)
  ]

module _ {ℓ κ} {A : Type ℓ} {B : Type κ} (d : Discrete A) where
  pub elem-map-keep :
      (f : B → A) (p : B → Bool) (a : A) (xs : List B)
      → elem d a (map f (keep p xs)) ≡ true
      → elem d a (map f xs) ≡ true
  elem-map-keep f p a [] h = h
  elem-map-keep f p a (x ∷ xs) h = ground (arith, elem-map-keep f p a xs)

  -- An item that is reached by an edge shows the source of the edge.
  pub edge_source :
      (from to : B → A) (a b : A) (xs : List B)
      → elem d b (map to (keep (λ x. same d (from x) a) xs)) ≡ true
      → elem d a (map from xs) ≡ true
  edge_source from to a b [] h = cc
  edge_source from to a b (x ∷ xs) h = elim (Bool-cases (same d (from x) a)) [
    | inl e ↦ rw (eq_of_same d (from x) a e) (ground (arith, same_self d a))
    | inr e ↦ ground (arith, edge_source from to a b xs)
  ]
