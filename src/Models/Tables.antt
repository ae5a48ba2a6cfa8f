-- ===== src/Models/Tables.antt =====
-- The contents of the tables `cars` and `rentals`: what a flush writes to them, and the
-- constraints under which app/models and the migration declare them.
pub mod Laws
pub mod Writes
pub mod Check
use drive_now.Base.{
  ℕ, ◌≤◌, ◌≡◌, ◌≢◌, Bool, ◌&&◌, Option, none, some, List, [], ◌∷◌, ◌==◌, if◌then◌else◌, find?,
  count, All,
}
use drive_now.Models.{Car, Rental, is_active}

pub record Tables : Type 0 where
  pub cars : List Car
  pub rentals : List Rental

-- What the unit of work holds back until the next flush: rows of new objects, and the new values of
-- loaded objects whose attributes were assigned.
pub data Change : Type 0 where
  insert_car : Car → Change
  update_car : Car → Change
  insert_rental : Rental → Change
  update_rental : Rental → Change

-- `TimestampMixin`: an INSERT takes both columns from the server default `now()`, an UPDATE sets
-- `updated_at` again.
abbrev pub created_car : ℕ → Car → Car
created_car now c = record c { created_at = now; updated_at = now }

abbrev pub updated_car : ℕ → Car → Car
updated_car now c = record c { updated_at = now }

abbrev pub created_rental : ℕ → Rental → Rental
created_rental now r = record r { created_at = now; updated_at = now }

abbrev pub updated_rental : ℕ → Rental → Rental
updated_rental now r = record r { updated_at = now }

-- UPDATE ... WHERE id = :id
abbrev pub put_car : Car → List Car → List Car
put_car c [] = []
put_car c (x ∷ xs) = (if x.id == c.id then c else x) ∷ put_car c xs

abbrev pub put_rental : Rental → List Rental → List Rental
put_rental r [] = []
put_rental r (x ∷ xs) = (if x.id == r.id then r else x) ∷ put_rental r xs

abbrev pub apply : ℕ → Change → Tables → Tables
apply now (insert_car c) t = record t { cars = created_car now c ∷ t.cars }
apply now (update_car c) t = record t { cars = put_car (updated_car now c) t.cars }
apply now (insert_rental r) t = record t { rentals = created_rental now r ∷ t.rentals }
apply now (update_rental r) t = record t { rentals = put_rental (updated_rental now r) t.rentals }

abbrev pub apply_all : ℕ → List Change → Tables → Tables
apply_all now [] t = t
apply_all now (c ∷ cs) t = apply_all now cs (apply now c t)

-- The row with a primary key, deleted or not.
abbrev pub find_car : ℕ → List Car → Option Car
find_car i = find? (λ c. c.id == i)

abbrev pub find_rental : ℕ → List Rental → Option Rental
find_rental i = find? (λ r. r.id == i)

-- `Rental.car_id == car_id, Rental.returned_date IS NULL`
abbrev pub is_open_for : ℕ → Rental → Bool
is_open_for i r = r.car_id == i && is_active r

abbrev pub open_count : ℕ → List Rental → ℕ
open_count i = count (is_open_for i)

-- Primary keys are unique.
abbrev pub CarKeys : List Car → Type 0
CarKeys [] = Unit {0}
CarKeys (c ∷ cs) = (find_car c.id cs ≡ none) × CarKeys cs

abbrev pub RentalKeys : List Rental → Type 0
RentalKeys [] = Unit {0}
RentalKeys (r ∷ rs) = (find_rental r.id rs ≡ none) × RentalKeys rs

-- ck_rentals_returned_after_start
abbrev pub ReturnedAfterStart : ℕ → Option ℕ → Type 0
ReturnedAfterStart start none = Unit {0}
ReturnedAfterStart start (some d) = start ≤ d

-- The constraints of one row of `rentals`: the foreign key fk_rentals_car_id, and the two CHECKs.
abbrev pub RentalRow : List Car → Rental → Type 0
RentalRow cars r =
    (find_car r.car_id cars ≢ none)
    × (r.start_date ≤ r.end_date)
    × ReturnedAfterStart r.start_date r.returned_date

-- What the schema demands. `one_active` is the partial unique index uq_rentals_one_active_per_car.
-- The CHECK car_status and NOT NULL are in the types of the columns.
pub record Satisfies (t : Tables) : Type 0 where
  pub car_keys : CarKeys t.cars
  pub rental_keys : RentalKeys t.rentals
  pub rental_rows : All (RentalRow t.cars) t.rentals
  pub one_active : (i : ℕ) → open_count i t.rentals ≤ 1
