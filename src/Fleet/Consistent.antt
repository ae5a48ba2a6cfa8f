-- ===== src/Fleet/Consistent.antt =====
-- The invariant of the fleet, and what each write of the promises does to it: a car is in use if and
-- only if it has an open rental, and then it has one.
use drive_now.Base.{
  ℕ, ◌≤◌, ◌≡◌, refl, inl, inr, true, false, Option, none, some, ◌∷◌, arith, if◌then◌else◌,
  Bool-cases,
}
use drive_now.Models.{CarStatus, available, in_use, status_eq, Car, is_deleted, Rental}
use drive_now.Models.Tables.{
  Tables, Satisfies, find_car, find_rental, put_car, put_rental, open_count, updated_car,
}
use drive_now.Models.Tables.Laws.{find_car-put_car, open_count-put_rental}
use drive_now.Models.Tables.Writes.{
  insert_car-Satisfies, put_car-Satisfies, insert_rental-Satisfies, put_rental-Satisfies,
  rental_row,
}
use drive_now.Schemas.{CarCreate, RentalCreate}
use drive_now.Fleet
use drive_now.Fleet.{Verdict, accepts}

-- How many open rentals a car should have.
abbrev pub load : Car → ℕ
load c = if is_deleted c then 0 else if status_eq c.status in_use then 1 else 0

abbrev pub occupancy : Option Car → ℕ
occupancy none = 0
occupancy (some c) = load c

pub record IsConsistent (t : Tables) : Type 0 where
  pub rows : Satisfies t
  pub occupied : (i : ℕ) → open_count i t.rentals ≡ occupancy (find_car i t.cars)

-- A new value of a car that keeps its load keeps the invariant.
pub put_car-IsConsistent :
    (c old : Car) (t : Tables)
    → IsConsistent t
    → find_car c.id t.cars ≡ some old
    → load c ≡ load old
    → IsConsistent (record t { cars = put_car c t.cars })
put_car-IsConsistent c old t k e same = record {
  rows = put_car-Satisfies c t k.rows;
  occupied = λ i. ground (arith, k.occupied i, find_car-put_car i c t.cars);
}

pub add-IsConsistent :
    (now car_id : ℕ) (dto : CarCreate) (t : Tables)
    → IsConsistent t
    → find_car car_id t.cars ≡ none
    → let car = Fleet.added now car_id dto in IsConsistent (record t { cars = car ∷ t.cars })
add-IsConsistent now car_id dto t k new = record {
  rows = insert_car-Satisfies (Fleet.added now car_id dto) t k.rows new;
  occupied = λ i. ground (arith, k.occupied i);
}

pub retire-IsConsistent :
    (now instant : ℕ) (car : Car) (t : Tables)
    → IsConsistent t
    → find_car car.id t.cars ≡ some car
    → open_count car.id t.rentals ≡ 0
    → IsConsistent (record t { cars = put_car (Fleet.retired now instant car) t.cars })
retire-IsConsistent now instant car t k e free = record {
  rows = put_car-Satisfies (Fleet.retired now instant car) t k.rows;
  occupied =
      λ i. ground (arith, k.occupied i, find_car-put_car i (Fleet.retired now instant car) t.cars);
}

pub put_status-Satisfies :
    (now : ℕ) (status : CarStatus) (car : Car) (t : Tables)
    → Satisfies t
    → Satisfies (record t { cars = Fleet.put_status now status car t.cars })
put_status-Satisfies now status car t s = elim (Bool-cases (status_eq car.status status)) [
  | inl same ↦ rw same s
  | inr other ↦ rw other (put_car-Satisfies (updated_car now (record car { status = status })) t s)
]

-- The writes of `register_rental`: first the rental, then the car.
module _ (now rental_id : ℕ) (dto : RentalCreate) (car : Car) (t : Tables) (k : IsConsistent t)
    (new : find_rental rental_id t.rentals ≡ none) (dates : dto.start_date ≤ dto.end_date)
    (e : find_car car.id t.cars ≡ some car) (free : open_count car.id t.rentals ≡ 0) where
  pub rented-Satisfies :
      Satisfies (record t { rentals = Fleet.rented now rental_id dto car ∷ t.rentals })
  rented-Satisfies =
      insert_rental-Satisfies (Fleet.rented now rental_id dto car) t k.rows new
        ((λ h. cc), dates, tt) free

  pub lend-IsConsistent :
      is_deleted car ≡ false
      → status_eq car.status available ≡ true
      → IsConsistent (record {
        cars = Fleet.put_status now in_use car t.cars;
        rentals = Fleet.rented now rental_id dto car ∷ t.rentals;
      })
  lend-IsConsistent live av = record {
    rows = put_status-Satisfies now in_use car _ rented-Satisfies;
    occupied = λ i. ground (
      arith,
      k.occupied i,
      find_car-put_car i (updated_car now (record car { status = in_use })) t.cars,
    );
  }

-- The writes of `end_rental`: first the rental, then the car.
module _ (now today : ℕ) (rental : Rental) (car : Car) (t : Tables) (k : IsConsistent t)
    (held : find_rental rental.id t.rentals ≡ some rental) (out : rental.returned_date ≡ none)
    (due : rental.start_date ≤ today) (e : find_car rental.car_id t.cars ≡ some car)
    (same : car.id ≡ rental.car_id) where
  pub returned-Satisfies :
      Satisfies (record t { rentals = put_rental (Fleet.returned now today rental) t.rentals })
  returned-Satisfies =
      let row = rental_row rental.id t.cars t.rentals rental k.rows.rental_rows held in
      put_rental-Satisfies (Fleet.returned now today rental) rental t k.rows held
        (row.0, row.1, due) refl

  pub take_back-IsConsistent :
      is_deleted car ≡ false
      → IsConsistent (record {
        cars = Fleet.put_status now available car t.cars;
        rentals = put_rental (Fleet.returned now today rental) t.rentals;
      })
  take_back-IsConsistent live = record {
    rows = put_status-Satisfies now available car _ returned-Satisfies;
    occupied = λ i. ground (
      arith,
      k.occupied i,
      open_count-put_rental i (Fleet.returned now today rental) rental t.rentals k.rows.rental_keys
          held,
      find_car-put_car i (updated_car now (record car { status = available })) t.cars,
    );
  }
