-- ===== src/Fleet/Invariant.antt =====
-- The promises of `Fleet` against the invariant of the fleet and the constraints of the schema.
use drive_now.Base.{
  ℕ, ◌≤◌, ◌≡◌, refl, sym, subst, inl, inr, false, none, some, List, [], ◌∷◌, arith, ◌==◌, ltb,
  Bool-cases, Option-cases,
}
use drive_now.Models.{available, status_eq, Car, is_deleted, Rental}
use drive_now.Models.Tables.{Tables, find_car, find_rental, updated_car}
use drive_now.Models.Tables.Laws.{find_rental_own_key}
use drive_now.Schemas.{CarCreate, CarUpdate, RentalCreate}
use drive_now.Services.Cars.{
  Assignment, set_model, set_year, set_status, illegal, new_status, set_all, actual,
}
use drive_now.Repositories.Cars.{find_live}
use drive_now.Repositories.Rentals.{active_of}
use drive_now.Repositories.Lookup.{find_live-eq-some, active_of-eq-none}
use drive_now.Fleet
use drive_now.Fleet.{Verdict, accepts, refuses}
use drive_now.Fleet.Consistent.{
  IsConsistent, load, put_car-IsConsistent, add-IsConsistent, retire-IsConsistent,
  lend-IsConsistent, take_back-IsConsistent,
}

-- The tables that a promise stores are consistent.
abbrev pub Keeps : {A : Type 0} → Verdict A → Type 0
Keeps (accepts a t) = IsConsistent t
Keeps (refuses e) = Unit {0}

-- Adding a car under a fresh key keeps the invariant.
pub add-Keeps :
    (now car_id : ℕ) (dto : CarCreate) (t : Tables)
    → IsConsistent t
    → find_car car_id t.cars ≡ none
    → Keeps (Fleet.add now car_id dto t)
unfolding Fleet.add
add-Keeps now car_id dto t k new = add-IsConsistent now car_id dto t k new

-- A live car is found by its own key.
pub found_car :
    (i : ℕ) (car : Car) (t : Tables)
    → IsConsistent t
    → find_live i t.cars ≡ some car
    → (find_car car.id t.cars ≡ some car) × (car.id ≡ i) × (is_deleted car ≡ false)
found_car i car t k e =
    let (found, same, live) = find_live-eq-some i t.cars car k.rows.car_keys e in
    (subst (λ j. find_car j t.cars ≡ some car) (sym same) found, same, live)

lend-Keeps :
    (now rental_id : ℕ) (dto : RentalCreate) (car : Car) (t : Tables)
    → IsConsistent t
    → find_rental rental_id t.rentals ≡ none
    → dto.start_date ≤ dto.end_date
    → find_live dto.car_id t.cars ≡ some car
    → Keeps (Fleet.lend now rental_id dto car t)
lend-Keeps now rental_id dto car t k new dates e =
    elim (Bool-cases (status_eq car.status available)) [
      | inr taken ↦ rw (taken, Fleet.lend) tt
      | inl free ↦ elim (Option-cases (active_of car.id t)) [
        | inr (r, x) ↦ rw (free, x, Fleet.lend) tt
        | inl x ↦
            let (found, _, live) = found_car dto.car_id car t k e in
            rw (free, x, Fleet.lend)
              (lend-IsConsistent now rental_id dto car t k new dates found
                (active_of-eq-none car.id t x) live free)
      ]
    ]

pub rent-Keeps :
    (now rental_id : ℕ) (dto : RentalCreate) (t : Tables)
    → IsConsistent t
    → find_rental rental_id t.rentals ≡ none
    → dto.start_date ≤ dto.end_date
    → Keeps (Fleet.rent now rental_id dto t)
unfolding Fleet.rent
rent-Keeps now rental_id dto t k new dates = elim (Option-cases (find_live dto.car_id t.cars)) [
  | inl x ↦ rw (x, Fleet.rent) tt
  | inr (car, x) ↦ rw (x, Fleet.rent) (lend-Keeps now rental_id dto car t k new dates x)
]

-- Registering a rental under a fresh key, for a term that does not end before it starts, keeps the
-- invariant.
pub register-Keeps :
    (now rental_id today : ℕ) (dto : RentalCreate) (t : Tables)
    → IsConsistent t
    → find_rental rental_id t.rentals ≡ none
    → dto.start_date ≤ dto.end_date
    → Keeps (Fleet.register now rental_id today dto t)
unfolding Fleet.register
register-Keeps now rental_id today dto t k new dates = elim (Bool-cases (dto.start_date == today)) [
  | inl x ↦ rw (x, Fleet.register) (rent-Keeps now rental_id dto t k new dates)
  | inr x ↦ rw (x, Fleet.register) tt
]

take_back-Keeps :
    (now today rental_id : ℕ) (rental : Rental) (car : Car) (t : Tables)
    → IsConsistent t
    → find_rental rental_id t.rentals ≡ some rental
    → find_live rental.car_id t.cars ≡ some car
    → Keeps (Fleet.take_back now today rental_id rental car t)
take_back-Keeps now today rental_id rental car t k held e =
    elim (Option-cases rental.returned_date) [
      | inr (d, x) ↦ rw (x, Fleet.take_back) tt
      | inl x ↦ elim (Bool-cases (ltb today rental.start_date)) [
        | inl early ↦ simp (x, early, Fleet.take_back) tt
        | inr due ↦
            let (found, same, live) = found_car rental.car_id car t k e in
            simp (x, due, Fleet.take_back)
              (take_back-IsConsistent now today rental car t k
                (find_rental_own_key rental_id t.rentals rental held) x (ground arith)
                (subst (λ i. find_car i t.cars ≡ some car) same found) same live)
      ]
    ]

-- Ending a rental keeps the invariant.
pub finish-Keeps :
    (now today rental_id : ℕ) (t : Tables)
    → IsConsistent t
    → Keeps (Fleet.finish now today rental_id t)
unfolding Fleet.finish
finish-Keeps now today rental_id t k = elim (Option-cases (find_rental rental_id t.rentals)) [
  | inl x ↦ rw (x, Fleet.finish) tt
  | inr (rental, x) ↦ elim (Option-cases (find_live rental.car_id t.cars)) [
    | inl y ↦ rw (x, Fleet.finish) (rw y tt)
    | inr (car, y) ↦
        rw (x, Fleet.finish) (rw y (take_back-Keeps now today rental_id rental car t k x y))
  ]
]

-- Retiring a car keeps the invariant.
pub delete-Keeps :
    (now instant car_id : ℕ) (t : Tables)
    → IsConsistent t
    → Keeps (Fleet.delete now instant car_id t)
unfolding Fleet.delete
delete-Keeps now instant car_id t k = elim (Option-cases (find_live car_id t.cars)) [
  | inl x ↦ rw (x, Fleet.delete) tt
  | inr (car, x) ↦ elim (Option-cases (active_of car_id t)) [
    | inr (r, y) ↦ rw (x, Fleet.delete) (rw y tt)
    | inl y ↦
        let (found, same, _) = found_car car_id car t k x in
        rw (x, Fleet.delete)
          (rw y (
            retire-IsConsistent now instant car t k found (rw same (active_of-eq-none car_id t y))))
  ]
]

pub set_all-id : (car : Car) (xs : List Assignment) → (set_all car xs).id ≡ car.id
set_all-id car [] = refl
set_all-id car (set_model m ∷ xs) = set_all-id (record car { model = m }) xs
set_all-id car (set_year y ∷ xs) = set_all-id (record car { year = y }) xs
set_all-id car (set_status s ∷ xs) = set_all-id (record car { status = s }) xs

-- No update makes or frees a car in use.
load-set_all :
    (car : Car) (dto : CarUpdate) (now : ℕ)
    → illegal car.status (new_status (actual car dto)) ≡ none
    → load (updated_car now (set_all car (actual car dto))) ≡ load car
unfolding actual
load-set_all car dto now legal = ground arith

save-Keeps :
    (now : ℕ) (car : Car) (assigned : List Assignment) (t : Tables)
    → IsConsistent t
    → find_car car.id t.cars ≡ some car
    → (illegal car.status (new_status assigned) ≡ none
        → load (updated_car now (set_all car assigned)) ≡ load car)
    → Keeps (Fleet.save now car assigned t)
save-Keeps now car assigned t k found same =
    elim (Option-cases (illegal car.status (new_status assigned))) [
      | inr (new, x) ↦ rw (x, Fleet.save) tt
      | inl x ↦
          rw (x, Fleet.save)
            (put_car-IsConsistent (updated_car now (set_all car assigned)) car t k
              (subst (λ i. find_car i t.cars ≡ some car) (sym (set_all-id car assigned)) found)
              (same x))
    ]

save_actual-Keeps :
    (now : ℕ) (car : Car) (assigned : List Assignment) (t : Tables)
    → IsConsistent t
    → find_car car.id t.cars ≡ some car
    → (illegal car.status (new_status assigned) ≡ none
        → load (updated_car now (set_all car assigned)) ≡ load car)
    → Keeps (Fleet.save_actual now car assigned t)
save_actual-Keeps now car [] t k found same = k
save_actual-Keeps now car (a ∷ rest) t k found same = save-Keeps now car (a ∷ rest) t k found same

-- Updating a car keeps the invariant.
pub update-Keeps :
    (now car_id : ℕ) (dto : CarUpdate) (t : Tables)
    → IsConsistent t
    → Keeps (Fleet.update now car_id dto t)
unfolding Fleet.update
update-Keeps now car_id dto t k = elim (Option-cases (find_live car_id t.cars)) [
  | inl x ↦ rw (x, Fleet.update) tt
  | inr (car, x) ↦
      rw (x, Fleet.update)
        (save_actual-Keeps now car (actual car dto) t k (found_car car_id car t k x).0
          (load-set_all car dto now))
]
