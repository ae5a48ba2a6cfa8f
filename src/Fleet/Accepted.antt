-- ===== src/Fleet/Accepted.antt =====
-- What the promises of `Fleet` were when they are known to have been accepted.
use drive_now.Base.{
  ℕ, ◌≤◌, ◌≡◌, inl, inr, true, none, some, ◌∷◌, arith, ◌==◌, ltb, Bool-cases, Option-cases,
}
use drive_now.Models.{CarStatus, available, in_use, status_eq, Car, Rental}
use drive_now.Models.Tables.{Tables, find_rental, put_car, put_rental, updated_car}
use drive_now.Schemas.{RentalCreate}
use drive_now.Repositories.Cars.{find_live}
use drive_now.Repositories.Rentals.{active_of}
use drive_now.Fleet
use drive_now.Fleet.{Verdict, accepts, refuses}

-- A rental that was registered: by whom it could be, and what it left.
abbrev pub Registered : ℕ → ℕ → ℕ → RentalCreate → Tables → Rental × Car → Tables → Type 0
Registered now rental_id today dto t a t' =
    (car : Car) × (dto.start_date ≡ today)
    × (find_live dto.car_id t.cars ≡ some car)
    × (car.status ≡ available)
    × (active_of car.id t ≡ none)
    × (a ≡ (Fleet.rented now rental_id dto car, updated_car now (record car { status = in_use })))
    × (t' ≡ record {
      cars = put_car (updated_car now (record car { status = in_use })) t.cars;
      rentals = Fleet.rented now rental_id dto car ∷ t.rentals;
    })

status_eq-eq : (a b : CarStatus) → status_eq a b ≡ true → a ≡ b
status_eq-eq a b h = ground arith

pub register-Registered :
    (now rental_id today : ℕ) (dto : RentalCreate) (t : Tables) (a : Rental × Car) (t' : Tables)
    → Fleet.register now rental_id today dto t ≡ accepts a t'
    → Registered now rental_id today dto t a t'
unfolding Fleet.register
register-Registered now rental_id today dto t a t' e = elim (Bool-cases (dto.start_date == today)) [
  | inr x ↦ absurd (ground arith)
  | inl x ↦ elim (Option-cases (find_live dto.car_id t.cars)) [
    | inl y ↦ absurd (ground arith)
    | inr (car, y) ↦ elim (Bool-cases (status_eq car.status available)) [
      | inr z ↦ absurd (ground arith)
      | inl z ↦ elim (Option-cases (active_of car.id t)) [
        | inr (r, u) ↦ absurd (ground arith)
        | inl u ↦ (car, ground arith, y, status_eq-eq _ _ z, u, ground arith, ground arith)
      ]
    ]
  ]
]

-- A rental that was ended.
abbrev pub Finished : ℕ → ℕ → ℕ → Tables → Rental × Car → Tables → Type 0
Finished now today rental_id t a t' =
    (rental : Rental) × (car : Car) × (find_rental rental_id t.rentals ≡ some rental)
    × (find_live rental.car_id t.cars ≡ some car)
    × (rental.returned_date ≡ none)
    × (rental.start_date ≤ today)
    × (a ≡ (Fleet.returned now today rental, Fleet.with_status now available car))
    × (t' ≡ record {
      cars = Fleet.put_status now available car t.cars;
      rentals = put_rental (Fleet.returned now today rental) t.rentals;
    })

pub finish-Finished :
    (now today rental_id : ℕ) (t : Tables) (a : Rental × Car) (t' : Tables)
    → Fleet.finish now today rental_id t ≡ accepts a t'
    → Finished now today rental_id t a t'
unfolding Fleet.finish
finish-Finished now today rental_id t a t' e =
    elim (Option-cases (find_rental rental_id t.rentals)) [
      | inl x ↦ absurd (ground arith)
      | inr (rental, x) ↦ elim (Option-cases (find_live rental.car_id t.cars)) [
        | inl y ↦ absurd (ground arith)
        | inr (car, y) ↦ elim (Option-cases rental.returned_date) [
          | inr (d, z) ↦ absurd (ground arith)
          | inl z ↦ elim (Bool-cases (ltb today rental.start_date)) [
            | inl u ↦ absurd (ground arith)
            | inr u ↦ (rental, car, x, y, z, ground arith, ground arith, ground arith)
          ]
        ]
      ]
    ]

-- A car that was retired.
abbrev pub Retired : ℕ → ℕ → ℕ → Tables → Car → Tables → Type 0
Retired now instant car_id t a t' =
    (car : Car) × (find_live car_id t.cars ≡ some car)
    × (active_of car_id t ≡ none)
    × (a ≡ Fleet.retired now instant car)
    × (t' ≡ record t { cars = put_car (Fleet.retired now instant car) t.cars })

pub delete-Retired :
    (now instant car_id : ℕ) (t : Tables) (a : Car) (t' : Tables)
    → Fleet.delete now instant car_id t ≡ accepts a t'
    → Retired now instant car_id t a t'
unfolding Fleet.delete
delete-Retired now instant car_id t a t' e = elim (Option-cases (find_live car_id t.cars)) [
  | inl x ↦ absurd (ground arith)
  | inr (car, x) ↦ elim (Option-cases (active_of car_id t)) [
    | inr (r, y) ↦ absurd (ground arith)
    | inl y ↦ (car, x, y, ground arith, ground arith)
  ]
]
