-- ===== src/Base/Sorting.antt =====
-- ORDER BY: a stable insertion sort by a test `le`, which tells whether the first row may stand
-- before the second.
use Prim.Native.Nat.{ℕ, ◌≤◌, ◌+◌}
use mathlib.Core.Path.{◌≡◌, refl}
use mathlib.Core.Bool.{Bool}
use mathlib.Core.List.{List, [], ◌∷◌}
use mathlib.Core.Option.{Option, none, some}
use native.Mathlib.Omega.{arith}
use drive_now.Base.Tests.{leb, if◌then◌else◌}
use drive_now.Base.Lists.{All, count, length}

module _ {ℓ} {A : Type ℓ} where
  abbrev pub insert_by : (A → A → Bool) → A → List A → List A
  insert_by le x [] = x ∷ []
  insert_by le x (y ∷ ys) = if le x y then x ∷ y ∷ ys else y ∷ insert_by le x ys

  abbrev pub sort_by : (A → A → Bool) → List A → List A
  sort_by le [] = []
  sort_by le (x ∷ xs) = insert_by le x (sort_by le xs)

  -- `.first()` of a result.
  abbrev pub first : List A → Option A
  first [] = none
  first (x ∷ xs) = some x

  count-insert_by :
      (le : A → A → Bool) (p : A → Bool) (x : A) (xs : List A)
      → count p (insert_by le x xs) ≡ count p (x ∷ xs)
  count-insert_by le p x [] = refl
  count-insert_by le p x (y ∷ ys) = ground (arith, count-insert_by le p x ys)

  -- Sorting keeps every row, as often.
  pub count-sort_by :
      (le : A → A → Bool) (p : A → Bool) (xs : List A) → count p (sort_by le xs) ≡ count p xs
  count-sort_by le p [] = refl
  count-sort_by le p (x ∷ xs) =
      omega (arith, count-insert_by le p x (sort_by le xs), count-sort_by le p xs)

  length-insert_by :
      (le : A → A → Bool) (x : A) (xs : List A) → length (insert_by le x xs) ≡ length xs + 1
  length-insert_by le x [] = omega arith
  length-insert_by le x (y ∷ ys) = ground (arith, length-insert_by le x ys)

  pub length-sort_by : (le : A → A → Bool) (xs : List A) → length (sort_by le xs) ≡ length xs
  length-sort_by le [] = refl
  length-sort_by le (x ∷ xs) =
      omega (arith, length-insert_by le x (sort_by le xs), length-sort_by le xs)

  first-insert_by : (le : A → A → Bool) (x : A) (xs : List A) → first (insert_by le x xs) ≡ none → ⊥
  first-insert_by le x [] e = cc
  first-insert_by le x (y ∷ ys) e = ground arith

  -- A result has no first row if and only if it is empty.
  pub first-sort_by :
      (le : A → A → Bool) (xs : List A) → first (sort_by le xs) ≡ none → length xs ≡ 0
  first-sort_by le [] e = refl
  first-sort_by le (x ∷ xs) e = absurd (first-insert_by le x (sort_by le xs) e)

module _ {ℓ} {A : Type ℓ} (key : A → ℕ) where
  -- Ascending in the key.
  abbrev pub IsSorted : List A → Type 0
  IsSorted [] = Unit {0}
  IsSorted (x ∷ xs) = All (λ y. key x ≤ key y) xs × IsSorted xs

  All-le : {m n : ℕ} (xs : List A) → m ≤ n → All (λ y. n ≤ key y) xs → All (λ y. m ≤ key y) xs
  All-le [] h a = tt
  All-le (x ∷ xs) h a = (omega arith, All-le xs h a.1)

  insert_by-All :
      (m : ℕ) (x : A) (xs : List A)
      → m ≤ key x
      → All (λ y. m ≤ key y) xs
      → All (λ y. m ≤ key y) (insert_by (λ a b. leb (key a) (key b)) x xs)
  insert_by-All m x [] h a = (h, tt)
  insert_by-All m x (y ∷ ys) h a = ground (arith, insert_by-All m x ys h)

  insert_by-IsSorted :
      (x : A) (xs : List A) → IsSorted xs → IsSorted (insert_by (λ a b. leb (key a) (key b)) x xs)
  insert_by-IsSorted x [] s = (tt, tt)
  insert_by-IsSorted x (y ∷ ys) s = ground (
    arith,
    insert_by-IsSorted x ys s.1,
    insert_by-All (key y) x ys,
    All-le {m = key x} {n = key y} ys,
  )

  pub sort_by-IsSorted : (xs : List A) → IsSorted (sort_by (λ a b. leb (key a) (key b)) xs)
  sort_by-IsSorted [] = tt
  sort_by-IsSorted (x ∷ xs) = insert_by-IsSorted x _ (sort_by-IsSorted xs)
