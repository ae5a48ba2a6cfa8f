-- ===== src/Repositories/Lookup.antt =====
-- What the queries of the repositories find.
use drive_now.Base.{
  ℕ, ◌≤◌, ◌≡◌, refl, sym, ◌∙◌, false, none, some, List, [], ◌∷◌, arith, keep, length, length-keep,
  if◌then◌else◌, ◌==◌,
}
use drive_now.Base.Sorting.{first, sort_by, first-sort_by}
use drive_now.Models.{Car, is_deleted, Rental}
use drive_now.Models.Tables.{Tables, find_car, put_car, open_count, is_open_for, CarKeys}
use drive_now.Models.Tables.Laws.{replaced}
use drive_now.Repositories.Cars.{find_live}
use drive_now.Repositories.Rentals.{active_of, by_id_desc}

pub find_live-eq-none : (i : ℕ) (cs : List Car) → find_car i cs ≡ none → find_live i cs ≡ none
find_live-eq-none i [] e = refl
find_live-eq-none i (x ∷ xs) e = ground (arith, find_live-eq-none i xs)

-- A live row is the row with its key, and is not deleted.
pub find_live-eq-some :
    (i : ℕ) (cs : List Car) (c : Car)
    → CarKeys cs
    → find_live i cs ≡ some c
    → (find_car i cs ≡ some c) × (c.id ≡ i) × (is_deleted c ≡ false)
find_live-eq-some i [] c k e = cc
find_live-eq-some i (x ∷ xs) c k e =
    ground (arith, find_live-eq-some i xs c k.1, find_live-eq-none i xs)

-- A car has no active rental if and only if its open rentals count to zero.
pub active_of-eq-none : (i : ℕ) (t : Tables) → active_of i t ≡ none → open_count i t.rentals ≡ 0
unfolding active_of
active_of-eq-none i t e =
    sym (length-keep (is_open_for i) t.rentals)
    ∙ first-sort_by by_id_desc (keep (is_open_for i) t.rentals) e

pub active_of-eq-some :
    (i : ℕ) (t : Tables) (r : Rental) → active_of i t ≡ some r → 1 ≤ open_count i t.rentals
unfolding active_of
active_of-eq-some i t r e =
    grind
      (arith, length-keep (is_open_for i) t.rentals, some_row (keep (is_open_for i) t.rentals) e)
  where
    some_row : (rs : List Rental) → first (sort_by by_id_desc rs) ≡ some r → 1 ≤ length rs
    some_row [] e = cc
    some_row (x ∷ xs) e = omega arith

-- The live row that an UPDATE leaves.
pub find_live-put_car :
    (i : ℕ) (c : Car) (cs : List Car)
    → find_live i (put_car c cs) ≡ (
        if c.id == i
        then (if is_deleted c then none else replaced c (find_car i cs))
        else find_live i cs)
find_live-put_car i c [] = ground arith
find_live-put_car i c (x ∷ xs) = ground (arith, find_live-put_car i c xs)
