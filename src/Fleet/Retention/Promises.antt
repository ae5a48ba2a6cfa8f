-- ===== src/Fleet/Retention/Promises.antt =====
-- The promises of `Fleet` against the retention of rows.
use drive_now.Base.{
  ℕ, ◌≡◌, refl, sym, subst, inl, inr, false, none, some, List, [], ◌∷◌, Bool-cases, Option-cases,
}
use drive_now.Models.{CarStatus, available, in_use, status_eq, Car, is_deleted}
use drive_now.Models.Tables.{Tables, find_car, find_rental, put_car, updated_car}
use drive_now.Models.Tables.Laws.{find_rental_own_key}
use drive_now.Schemas.{CarCreate, CarUpdate, RentalCreate}
use drive_now.Services.Cars.{
  Assignment, set_model, set_year, set_status, illegal, new_status, set_all, actual,
}
use drive_now.Repositories.Cars.{find_live}
use drive_now.Fleet
use drive_now.Fleet.{Verdict, accepts, refuses}
use drive_now.Fleet.Consistent.{IsConsistent}
use drive_now.Fleet.Invariant.{found_car, set_all-id}
use drive_now.Fleet.Accepted.{register-Registered, finish-Finished, delete-Retired}
use drive_now.Fleet.Retention.{
  Retains, Retains-refl, rentals_same, cars_same, rentals_insert, cars_insert, rentals_put,
  cars_put, CarsGoOn,
}

-- The tables that a promise stores retain the rows of the tables before it.
abbrev pub Extends : {A : Type 0} → Tables → Verdict A → Type 0
Extends t (accepts a t') = Retains t t'
Extends t (refuses e) = Unit {0}

pub accepted-Extends :
    {A : Type 0} (t : Tables) (v : Verdict A)
    → ((a : A) (t' : Tables) → v ≡ accepts a t' → Retains t t')
    → Extends t v
accepted-Extends t (accepts a t') h = h a t' refl
accepted-Extends t (refuses e) h = tt

pub add-Extends :
    (now car_id : ℕ) (dto : CarCreate) (t : Tables)
    → find_car car_id t.cars ≡ none
    → Extends t (Fleet.add now car_id dto t)
unfolding Fleet.add
add-Extends now car_id dto t new = record {
  rentals = rentals_same t.rentals;
  cars = cars_insert (Fleet.added now car_id dto) t.cars new;
}

-- A live car, with new values.
live_put :
    (c' car : Car) (t : Tables)
    → find_car car.id t.cars ≡ some car
    → is_deleted car ≡ false
    → c'.id ≡ car.id
    → c'.created_at ≡ car.created_at
    → CarsGoOn t.cars (put_car c' t.cars)
live_put c' car t found live key made =
    cars_put c' car t.cars (rw key found) (key, made, λ h. absurd (cc))

put_status-CarsGoOn :
    (now : ℕ) (status : CarStatus) (car : Car) (t : Tables)
    → find_car car.id t.cars ≡ some car
    → is_deleted car ≡ false
    → CarsGoOn t.cars (Fleet.put_status now status car t.cars)
put_status-CarsGoOn now status car t found live = elim (Bool-cases (status_eq car.status status)) [
  | inl is ↦ rw is (cars_same t.cars)
  | inr other ↦
      rw other
        (live_put (updated_car now (record car { status = status })) car t found live refl refl)
]

pub register-Extends :
    (now rental_id today : ℕ) (dto : RentalCreate) (t : Tables)
    → IsConsistent t
    → find_rental rental_id t.rentals ≡ none
    → Extends t (Fleet.register now rental_id today dto t)
register-Extends now rental_id today dto t k new =
    accepted-Extends t (Fleet.register now rental_id today dto t) λ a t' e.
      let (car, _, y, _, _, _, g) = register-Registered now rental_id today dto t a t' e in
      let (found, _, live) = found_car dto.car_id car t k y in
      subst (Retains t) (sym g) (record {
        rentals = rentals_insert (Fleet.rented now rental_id dto car) t.rentals new;
        cars =
            live_put (updated_car now (record car { status = in_use })) car t found live refl refl;
      })

pub finish-Extends :
    (now today rental_id : ℕ) (t : Tables)
    → IsConsistent t
    → Extends t (Fleet.finish now today rental_id t)
finish-Extends now today rental_id t k =
    accepted-Extends t (Fleet.finish now today rental_id t) λ a t' e.
      let (rental, car, x, y, out, _, _, g) = finish-Finished now today rental_id t a t' e in
      let (found, _, live) = found_car rental.car_id car t k y in
      subst (Retains t) (sym g) (record {
        rentals =
            rentals_put (Fleet.returned now today rental) rental t.rentals
              (find_rental_own_key rental_id t.rentals rental x) (refl, λ h. absurd (h out));
        cars = put_status-CarsGoOn now available car t found live;
      })

pub delete-Extends :
    (now instant car_id : ℕ) (t : Tables)
    → IsConsistent t
    → Extends t (Fleet.delete now instant car_id t)
delete-Extends now instant car_id t k =
    accepted-Extends t (Fleet.delete now instant car_id t) λ a t' e.
      let (car, x, _, _, g) = delete-Retired now instant car_id t a t' e in
      let (found, _, live) = found_car car_id car t k x in
      subst (Retains t) (sym g) (record {
        rentals = rentals_same t.rentals;
        cars = live_put (Fleet.retired now instant car) car t found live refl refl;
      })

set_all-created_at :
    (car : Car) (xs : List Assignment) → (set_all car xs).created_at ≡ car.created_at
set_all-created_at car [] = refl
set_all-created_at car (set_model m ∷ xs) = set_all-created_at (record car { model = m }) xs
set_all-created_at car (set_year y ∷ xs) = set_all-created_at (record car { year = y }) xs
set_all-created_at car (set_status s ∷ xs) = set_all-created_at (record car { status = s }) xs

save-Extends :
    (now : ℕ) (car : Car) (assigned : List Assignment) (t : Tables)
    → find_car car.id t.cars ≡ some car
    → is_deleted car ≡ false
    → Extends t (Fleet.save_actual now car assigned t)
save-Extends now car [] t found live = Retains-refl t
save-Extends now car (a ∷ rest) t found live =
    elim (Option-cases (illegal car.status (new_status (a ∷ rest)))) [
      | inr (new, x) ↦ rw (x, Fleet.save) tt
      | inl x ↦
          rw (x, Fleet.save)
            (record {
              rentals = rentals_same t.rentals;
              cars =
                  live_put (updated_car now (set_all car (a ∷ rest))) car t found live
                    (set_all-id car (a ∷ rest)) (set_all-created_at car (a ∷ rest));
            })
    ]

pub update-Extends :
    (now car_id : ℕ) (dto : CarUpdate) (t : Tables)
    → IsConsistent t
    → Extends t (Fleet.update now car_id dto t)
unfolding Fleet.update
update-Extends now car_id dto t k = elim (Option-cases (find_live car_id t.cars)) [
  | inl x ↦ rw (x, Fleet.update) tt
  | inr (car, x) ↦
      let (found, _, live) = found_car car_id car t k x in
      rw (x, Fleet.update) (save-Extends now car (actual car dto) t found live)
]
