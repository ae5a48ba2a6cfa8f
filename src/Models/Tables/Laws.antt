-- ===== src/Models/Tables/Laws.antt =====
-- Lookups and counts after an UPDATE.
use drive_now.Base.{
  ℕ, ◌+◌, ◌≡◌, refl, sym, subst, Option, none, some, List, [], ◌∷◌, arith, ◌==◌, if◌then◌else◌,
}
use drive_now.Models.{Car, Rental}
use drive_now.Models.Tables.{
  find_car, find_rental, put_car, put_rental, open_count, is_open_for, CarKeys, RentalKeys,
}

-- The row that an UPDATE leaves: the new one where there was one.
abbrev pub replaced {ℓ} : {A : Type ℓ} → A → Option A → Option A
replaced a none = none
replaced a (some _) = some a

pub find_car-put_car :
    (i : ℕ) (c : Car) (cs : List Car)
    → find_car i (put_car c cs) ≡ (if c.id == i then replaced c (find_car i cs) else find_car i cs)
find_car-put_car i c [] = ground arith
find_car-put_car i c (x ∷ xs) = ground (arith, find_car-put_car i c xs)

pub find_car_id : (i : ℕ) (cs : List Car) (c : Car) → find_car i cs ≡ some c → c.id ≡ i
find_car_id i [] c e = cc
find_car_id i (x ∷ xs) c e = ground (arith, find_car_id i xs c)

pub CarKeys-put_car : (c : Car) (cs : List Car) → CarKeys cs → CarKeys (put_car c cs)
CarKeys-put_car c [] k = tt
CarKeys-put_car c (x ∷ xs) k =
    ground (arith, CarKeys-put_car c xs, find_car-put_car x.id c xs, find_car-put_car c.id c xs)

pub find_rental-put_rental :
    (i : ℕ) (r : Rental) (rs : List Rental)
    → find_rental i (put_rental r rs)
      ≡ (if r.id == i then replaced r (find_rental i rs) else find_rental i rs)
find_rental-put_rental i r [] = ground arith
find_rental-put_rental i r (x ∷ xs) = ground (arith, find_rental-put_rental i r xs)

pub find_rental_id : (i : ℕ) (rs : List Rental) (r : Rental) → find_rental i rs ≡ some r → r.id ≡ i
find_rental_id i [] r e = cc
find_rental_id i (x ∷ xs) r e = ground (arith, find_rental_id i xs r)

pub find_rental_own_key :
    (i : ℕ) (rs : List Rental) (r : Rental)
    → find_rental i rs ≡ some r
    → find_rental r.id rs ≡ some r
find_rental_own_key i rs r e =
    subst (λ j. find_rental j rs ≡ some r) (sym (find_rental_id i rs r e)) e

pub RentalKeys-put_rental :
    (r : Rental) (rs : List Rental) → RentalKeys rs → RentalKeys (put_rental r rs)
RentalKeys-put_rental r [] k = tt
RentalKeys-put_rental r (x ∷ xs) k = ground (
  arith,
  RentalKeys-put_rental r xs,
  find_rental-put_rental x.id r xs,
  find_rental-put_rental r.id r xs,
)

-- What one rental adds to the count of the open rentals of a car.
abbrev pub weight : ℕ → Rental → ℕ
weight i r = if is_open_for i r then 1 else 0

open_count-put_rental_absent :
    (i : ℕ) (r : Rental) (rs : List Rental)
    → find_rental r.id rs ≡ none
    → open_count i (put_rental r rs) ≡ open_count i rs
open_count-put_rental_absent i r [] e = refl
open_count-put_rental_absent i r (x ∷ xs) e = ground (arith, open_count-put_rental_absent i r xs)

pub open_count-put_rental :
    (i : ℕ) (r old : Rental) (rs : List Rental)
    → RentalKeys rs
    → find_rental r.id rs ≡ some old
    → open_count i (put_rental r rs) + weight i old ≡ open_count i rs + weight i r
open_count-put_rental i r old [] k e = cc
open_count-put_rental i r old (x ∷ xs) k e =
    ground (arith, open_count-put_rental i r old xs k.1, open_count-put_rental_absent i r xs)
