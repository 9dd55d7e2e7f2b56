-- ===== src/Prelude/Lists.antt =====
-- Lists, tuples, sets and dictionaries as the source uses them.
use Prim.Native.Nat.{ℕ, zero, suc}
use mathlib.Core.Path.{◌≡◌}
use mathlib.Core.Bool.{Bool, true, false, not, ◌&&◌, ◌||◌}
use mathlib.Core.List.{List, [], ◌∷◌, ◌++◌}
use mathlib.Core.Option.{Option, none, some}
use aipcs_mcp.Prelude.Tests.{if◌then◌else◌, same}

module _ {ℓ} {A : Type ℓ} where
  abbrev pub length : List A → ℕ
  length [] = 0
  length (x ∷ xs) = suc (length xs)

  abbrev pub take : ℕ → List A → List A
  take zero xs = []
  take (suc n) [] = []
  take (suc n) (x ∷ xs) = x ∷ take n xs

  abbrev pub drop : ℕ → List A → List A
  drop zero xs = xs
  drop (suc n) [] = []
  drop (suc n) (x ∷ xs) = drop n xs

  abbrev pub any : (A → Bool) → List A → Bool
  any p [] = false
  any p (x ∷ xs) = p x || any p xs

  abbrev pub all : (A → Bool) → List A → Bool
  all p [] = true
  all p (x ∷ xs) = p x && all p xs

  -- `[x for x in xs if p(x)]`
  abbrev pub keep : (A → Bool) → List A → List A
  keep p [] = []
  keep p (x ∷ xs) = let rest = keep p xs in if p x then x ∷ rest else rest

  -- `next((x for x in xs if p(x)), None)`
  abbrev pub find : (A → Bool) → List A → Option A
  find p [] = none
  find p (x ∷ xs) = let rest = find p xs in if p x then some x else rest

  module _ (d : Discrete A) where
    -- `a in xs`
    abbrev pub elem : A → List A → Bool
    elem a [] = false
    elem a (x ∷ xs) = same d a x || elem a xs

    -- `len(xs) == len(set(xs))`
    abbrev pub distinct : List A → Bool
    distinct [] = true
    distinct (x ∷ xs) = not (elem x xs) && distinct xs

    -- `set(xs) <= set(ys)`
    abbrev pub subset : List A → List A → Bool
    subset xs ys = all (λ x. elem x ys) xs

    -- `set(xs)`, as a list
    abbrev pub unique : List A → List A
    unique [] = []
    unique (x ∷ xs) = let rest = unique xs in if elem x xs then rest else x ∷ rest

  -- Insertion into a sorted list, behind the items of an equal key: `sorted` is stable.
  module _ (le : A → A → Bool) where
    abbrev pub insert_sorted : A → List A → List A
    insert_sorted a [] = a ∷ []
    insert_sorted a (x ∷ xs) = if le a x then a ∷ x ∷ xs else x ∷ insert_sorted a xs

    abbrev pub sorted : List A → List A
    sorted [] = []
    sorted (x ∷ xs) = insert_sorted x (sorted xs)

    abbrev pub is_sorted : List A → Bool
    is_sorted [] = true
    is_sorted (x ∷ xs) = all (le x) xs && is_sorted xs

-- `{key(x): x for x in xs}.get(k)`: the last item of a key is kept.
module _ {ℓ κ} {A : Type ℓ} {K : Type κ} (d : Discrete K) (key : A → K) where
  abbrev pub dict_get : List A → K → Option A
  dict_get [] k = none
  dict_get (x ∷ xs) k = elim (dict_get xs k) [
    | some y ↦ some y
    | none ↦ if same d (key x) k then some x else none
  ]

-- The leading items that two lists share, `xs[:len(ys)] == ys`.
abbrev pub IsPrefixOf {ℓ} : {A : Type ℓ} → List A → List A → Type ℓ
IsPrefixOf {A} xs ys = (rest : List A) × (ys ≡ xs ++ rest)

-- `not xs`
abbrev pub is_nil {ℓ} : {A : Type ℓ} → List A → Bool
is_nil [] = true
is_nil (x ∷ xs) = false

-- A predicate on every item.
abbrev pub All {ℓ κ} : {A : Type ℓ} → (A → Type κ) → List A → Type κ
All P [] = Unit
All P (x ∷ xs) = P x × All P xs
