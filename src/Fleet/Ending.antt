-- ===== src/Fleet/Ending.antt =====
-- The end of a rental, on the promises of `Fleet`.
use drive_now.Repositories.Lookup.{find_live-put_car}
use drive_now.Base.{
  ℕ, ◌≤◌, ◌≡◌, ◌≢◌, refl, subst, inl, inr, true, none, some, List, [], ◌∷◌, arith, Bool-cases,
  Option-cases,
}
use drive_now.Models.{available, status_eq, Car, is_deleted, Rental}
use drive_now.Models.Tables.{
  Tables, find_car, find_rental, put_rental, updated_car, open_count, CarKeys,
}
use drive_now.Models.Tables.Laws.{find_rental-put_rental, find_rental_id}
use drive_now.Models.Tables.Writes.{rental_row}
use drive_now.Schemas.{RentalCreate}
use drive_now.Services.Errors.{car_not_found, rental_already_ended}
use drive_now.Repositories.Cars.{find_live}
use drive_now.Repositories.Lookup.{find_live-eq-none}
use drive_now.Fleet
use drive_now.Fleet.{Verdict, accepts, refuses}
use drive_now.Fleet.Consistent.{IsConsistent}
use drive_now.Fleet.Invariant.{found_car}
use drive_now.Fleet.Accepted.{register-Registered, finish-Finished}
use drive_now.Fleet.Renting.{rented_car}

pub finish-accepted :
    (now today rental_id : ℕ) (rental : Rental) (car : Car) (t : Tables)
    → find_rental rental_id t.rentals ≡ some rental
    → find_live rental.car_id t.cars ≡ some car
    → rental.returned_date ≡ none
    → rental.start_date ≤ today
    → Fleet.finish now today rental_id t
      ≡ accepts
          (Fleet.returned now today rental, Fleet.with_status now available car)
          (record {
            cars = Fleet.put_status now available car t.cars;
            rentals = put_rental (Fleet.returned now today rental) t.rentals;
          })
unfolding Fleet.finish
finish-accepted now today rental_id rental car t x y z h = ground arith

pub finish-ended :
    (now today rental_id : ℕ) (rental : Rental) (car : Car) (t : Tables) (day : ℕ)
    → find_rental rental_id t.rentals ≡ some rental
    → find_live rental.car_id t.cars ≡ some car
    → rental.returned_date ≡ some day
    → Fleet.finish now today rental_id t ≡ refuses (rental_already_ended rental_id)
unfolding Fleet.finish
finish-ended now today rental_id rental car t day x y z = ground arith

-- A rental that was registered can be ended from its first day on.
pub registered-finish :
    (now rental_id today : ℕ) (dto : RentalCreate) (t : Tables) (a : Rental × Car) (t' : Tables)
    (now' today' : ℕ)
    → IsConsistent t
    → Fleet.register now rental_id today dto t ≡ accepts a t'
    → today ≤ today'
    → (a.0.car_id ≡ dto.car_id)
      × ((car : Car) × (t'' : Tables) × (Fleet.finish now' today' a.0.id t'
            ≡ accepts (Fleet.returned now' today' a.0, car) t''))
registered-finish now rental_id today dto t a t' now' today' k e h =
    let (car, _, y, _, _, f, g) = register-Registered now rental_id today dto t a t' e in
    let (c, found, _) = rented_car now rental_id today dto t a t' k e in
    let (_, same, _) = found_car dto.car_id car t k y in
    let in_t' : find_rental a.0.id t'.rentals ≡ some a.0 = ground arith in
    let live : find_live a.0.car_id t'.cars ≡ some c = ground arith in
    (
      ground arith,
      (_, _, finish-accepted now' today' a.0.id a.0 c t' in_t' live (ground arith) (ground arith)),
    )

-- The car is found available after its rental has ended.
pub returned_car :
    (now today rental_id : ℕ) (t : Tables) (a : Rental × Car) (t' : Tables)
    → IsConsistent t
    → Fleet.finish now today rental_id t ≡ accepts a t'
    → (car : Car) × (find_live a.0.car_id t'.cars ≡ some car) × (car.status ≡ available)
returned_car now today rental_id t a t' k e =
    let (rental, car, x, y, _, _, f, g) = finish-Finished now today rental_id t a t' e in
    let (found, same, live) = found_car rental.car_id car t k y in
    elim (Bool-cases (status_eq car.status available)) [
      | inl z ↦ (car, ground arith, ground arith)
      | inr z ↦
          let car' = updated_car now (record car { status = available }) in
          (car', ground (arith, find_live-put_car rental.car_id car' t.cars), refl)
    ]

-- A rental cannot be ended twice.
pub finish_twice :
    (now today rental_id : ℕ) (t : Tables) (a : Rental × Car) (t' : Tables) (now' today' : ℕ)
    → IsConsistent t
    → Fleet.finish now today rental_id t ≡ accepts a t'
    → Fleet.finish now' today' rental_id t' ≡ refuses (rental_already_ended rental_id)
finish_twice now today rental_id t a t' now' today' k e =
    let (rental, car, x, y, _, _, f, g) = finish-Finished now today rental_id t a t' e in
    let (c, found, _) = returned_car now today rental_id t a t' k e in
    let row = Fleet.returned now today rental in
    let in_t' : find_rental rental_id t'.rentals ≡ some a.0 = ground (
      arith,
      find_rental-put_rental rental_id row t.rentals,
      find_rental_id rental_id t.rentals rental x,
    ) in
    finish-ended now' today' rental_id a.0 c t' today in_t' found (ground arith)

find_live-retired :
    (i : ℕ) (c : Car) (cs : List Car)
    → find_live i cs ≡ none
    → find_car i cs ≡ some c
    → is_deleted c ≡ true
find_live-retired i c [] e f = cc
find_live-retired i c (x ∷ xs) e f = ground (arith, find_live-retired i c xs)

open_count-open :
    (i : ℕ) (rental : Rental) (rs : List Rental)
    → find_rental i rs ≡ some rental
    → rental.returned_date ≡ none
    → 1 ≤ open_count rental.car_id rs
open_count-open i rental [] e f = cc
open_count-open i rental (x ∷ xs) e f = ground (arith, open_count-open i rental xs)

-- A rental of a car that is retired, which was returned before.
abbrev pub OfRetiredCar : ℕ → ℕ → Tables → Type 0
OfRetiredCar rental_id i t =
    (rental : Rental) × (car : Car) × (find_rental rental_id t.rentals ≡ some rental)
    × (rental.car_id ≡ i)
    × (rental.returned_date ≢ none)
    × (find_car i t.cars ≡ some car)
    × (is_deleted car ≡ true)

retired_rental :
    (rental_id : ℕ) (rental : Rental) (t : Tables)
    → IsConsistent t
    → find_rental rental_id t.rentals ≡ some rental
    → find_live rental.car_id t.cars ≡ none
    → OfRetiredCar rental_id rental.car_id t
retired_rental rental_id rental t k x y = elim (Option-cases (find_car rental.car_id t.cars)) [
  | inl z ↦ absurd ((rental_row rental_id t.cars t.rentals rental k.rows.rental_rows x).0 z)
  | inr (car, z) ↦
      let gone = find_live-retired rental.car_id car t.cars y z in
      (
        rental,
        car,
        x,
        refl,
        (λ out.
            ground
              (arith, k.occupied rental.car_id, open_count-open rental_id rental t.rentals x out)),
        z,
        gone,
      )
]

-- On consistent tables, ending a rental is refused for a missing car only if the rental was returned
-- and its car retired since.
pub finish-car_not_found :
    (now today rental_id i : ℕ) (t : Tables)
    → IsConsistent t
    → Fleet.finish now today rental_id t ≡ refuses (car_not_found i)
    → OfRetiredCar rental_id i t
unfolding Fleet.finish
finish-car_not_found now today rental_id i t k e =
    elim (Option-cases (find_rental rental_id t.rentals)) [
      | inl x ↦ absurd (ground arith)
      | inr (rental, x) ↦ elim (Option-cases (find_live rental.car_id t.cars)) [
        | inl y ↦
            let same : rental.car_id ≡ i = ground arith in
            subst (λ j. OfRetiredCar rental_id j t) same (retired_rental rental_id rental t k x y)
        | inr (car, y) ↦ elim (Option-cases rental.returned_date) [
          | inr (d, z) ↦ absurd (ground arith)
          | inl z ↦ absurd (ground arith)
        ]
      ]
    ]

find_live-deleted :
    (i : ℕ) (c : Car) (cs : List Car)
    → CarKeys cs
    → find_car i cs ≡ some c
    → is_deleted c ≡ true
    → find_live i cs ≡ none
find_live-deleted i c [] k f e = refl
find_live-deleted i c (x ∷ xs) k f e =
    ground (arith, find_live-deleted i c xs k.1, find_live-eq-none i xs)

pub finish-OfRetiredCar :
    (now today rental_id i : ℕ) (t : Tables)
    → IsConsistent t
    → OfRetiredCar rental_id i t
    → Fleet.finish now today rental_id t ≡ refuses (car_not_found i)
unfolding Fleet.finish
finish-OfRetiredCar now today rental_id i t k (rental, car, x, same, _, z, gone) =
    ground (arith, find_live-deleted i car t.cars k.rows.car_keys z gone)
