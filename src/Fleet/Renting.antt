-- ===== src/Fleet/Renting.antt =====
-- The life of a rental, on the promises of `Fleet`.
use drive_now.Repositories.Lookup.{find_live-put_car}
use drive_now.Base.{
  ℕ, ◌≡◌, ◌≢◌, refl, inl, inr, none, some, ◌∷◌, arith, ◌==◌, Bool-cases, Option-cases,
}
use drive_now.Models.{available, in_use, status_eq, Car, Rental}
use drive_now.Models.Tables.{Tables, put_car, updated_car}
use drive_now.Schemas.{RentalCreate}
use drive_now.Services.Errors.{car_not_available, has_status, has_active_rental}
use drive_now.Repositories.Cars.{find_live}
use drive_now.Repositories.Rentals.{active_of}
use drive_now.Repositories.Lookup.{active_of-eq-some}
use drive_now.Fleet
use drive_now.Fleet.{Verdict, accepts, refuses}
use drive_now.Fleet.Consistent.{IsConsistent}
use drive_now.Fleet.Invariant.{found_car}
use drive_now.Fleet.Accepted.{register-Registered}

-- On consistent tables, a car that is available has no open rental.
pub available-free :
    (i : ℕ) (car : Car) (t : Tables)
    → IsConsistent t
    → find_live i t.cars ≡ some car
    → car.status ≡ available
    → active_of car.id t ≡ none
available-free i car t k e free = elim (Option-cases (active_of car.id t)) [
  | inl x ↦ x
  | inr (r, x) ↦
      absurd (
        ground
          (arith, active_of-eq-some car.id t r x, k.occupied car.id, (found_car i car t k e).0))
]

pub register-accepted :
    (now rental_id today : ℕ) (dto : RentalCreate) (car : Car) (t : Tables)
    → IsConsistent t
    → dto.start_date ≡ today
    → find_live dto.car_id t.cars ≡ some car
    → car.status ≡ available
    → Fleet.register now rental_id today dto t
      ≡ accepts
          (Fleet.rented now rental_id dto car, updated_car now (record car { status = in_use }))
          (record {
            cars = put_car (updated_car now (record car { status = in_use })) t.cars;
            rentals = Fleet.rented now rental_id dto car ∷ t.rentals;
          })
unfolding Fleet.register
register-accepted now rental_id today dto car t k day e free =
    ground (arith, available-free dto.car_id car t k e free)

-- The car is found in use after its rental is registered.
pub rented_car :
    (now rental_id today : ℕ) (dto : RentalCreate) (t : Tables) (a : Rental × Car) (t' : Tables)
    → IsConsistent t
    → Fleet.register now rental_id today dto t ≡ accepts a t'
    → (car : Car) × (find_live dto.car_id t'.cars ≡ some car) × (car.status ≡ in_use)
rented_car now rental_id today dto t a t' k e =
    let (car, _, y, _, _, _, f) = register-Registered now rental_id today dto t a t' e in
    let car' = updated_car now (record car { status = in_use }) in
    let (found, same, live) = found_car dto.car_id car t k y in
    (car', ground (arith, find_live-put_car dto.car_id car' t.cars), refl)

pub register-in_use :
    (now rental_id : ℕ) (dto : RentalCreate) (car : Car) (t : Tables)
    → find_live dto.car_id t.cars ≡ some car
    → car.status ≡ in_use
    → Fleet.register now rental_id dto.start_date dto t
      ≡ refuses (car_not_available dto.car_id (has_status in_use))
unfolding Fleet.register
register-in_use now rental_id dto car t e used = ground arith

-- The guard against an available car with an open rental is never reached on consistent tables.
pub register-never_doubly :
    (now rental_id today : ℕ) (dto : RentalCreate) (t : Tables) (i : ℕ)
    → IsConsistent t
    → Fleet.register now rental_id today dto t ≢ refuses (car_not_available i has_active_rental)
unfolding Fleet.register
register-never_doubly now rental_id today dto t i k e =
    elim (Bool-cases (dto.start_date == today)) [
      | inr x ↦ ground arith
      | inl x ↦ elim (Option-cases (find_live dto.car_id t.cars)) [
        | inl y ↦ ground arith
        | inr (car, y) ↦ elim (Bool-cases (status_eq car.status available)) [
          | inr z ↦ ground arith
          | inl z ↦ ground (arith, available-free dto.car_id car t k y)
        ]
      ]
    ]
