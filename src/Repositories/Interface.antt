-- ===== src/Repositories/Interface.antt =====
-- The protocols `CarRepository` and `RentalRepository`, on which the services depend, what they
-- promise of the rows that a transaction sees, and the implementations by SQLAlchemy.
use drive_now.Base.{
  ℕ, ◌+◌, ◌≡◌, ◌⊎◌, ◌↔◌, Bool, true, false, ◌&&◌, Option, none, some, List, [], ◌∷◌, ◌==◌,
  if◌then◌else◌, count, length,
}
use drive_now.Base.Sorting.{IsSorted}
use drive_now.Models.{CarStatus, status_eq, Car, is_deleted, Rental, is_active}
use drive_now.Models.Tables.{
  Tables, CarKeys, update_car, update_rental, created_car, updated_car, created_rental,
  updated_rental, find_rental, is_open_for, open_count,
}
use drive_now.Database.{Database, DbError, at}
use drive_now.Messaging.{Publisher}
use drive_now.Action.{Action, Result, ok, raised, database, World, car_lock, rental_lock}
use drive_now.Repositories.Cars
use drive_now.Repositories.Cars.{find_live, has_status}
use drive_now.Repositories.Rentals

pub record CarRepository (D : Database) (P : Publisher) : Type 0 where
  pub add : Car → Action D P Car
  pub get_by_id : ℕ → Action D P (Option Car)
  pub get_by_id_for_update : ℕ → Action D P (Option Car)
  pub list : Option CarStatus → Action D P (List Car)
  pub update : Car → Action D P Car
  -- with what `datetime.now(UTC)` returns
  pub soft_delete : ℕ → Car → Action D P Car
  pub count_by_status : Action D P (List (CarStatus × ℕ))

pub record RentalRepository (D : Database) (P : Publisher) : Type 0 where
  pub add : Rental → Action D P Rental
  pub get_by_id : ℕ → Action D P (Option Rental)
  pub get_by_id_for_update : ℕ → Action D P (Option Rental)
  pub get_active_by_car : ℕ → Action D P (Option Rental)
  pub list_active : Action D P (List Rental)
  pub update : Rental → Action D P Rental
  pub count_active : Action D P ℕ

-- `SqlAlchemyCarRepository` and `SqlAlchemyRentalRepository`
abbrev pub sqlalchemy_cars : {D : Database} {P : Publisher} → CarRepository D P
sqlalchemy_cars = record {
  add = Cars.add;
  get_by_id = Cars.get_by_id;
  get_by_id_for_update = Cars.get_by_id_for_update;
  list = Cars.list;
  update = Cars.update;
  soft_delete = Cars.soft_delete;
  count_by_status = Cars.count_by_status;
}

abbrev pub sqlalchemy_rentals : {D : Database} {P : Publisher} → RentalRepository D P
sqlalchemy_rentals = record {
  add = Rentals.add;
  get_by_id = Rentals.get_by_id;
  get_by_id_for_update = Rentals.get_by_id_for_update;
  get_active_by_car = Rentals.get_active_by_car;
  list_active = Rentals.list_active;
  update = Rentals.update;
  count_active = Rentals.count_active;
}

-- A repository as a partial map from keys to rows: a car that is deleted is not there.
abbrev pub live : Tables → ℕ → Option Car
live t i = find_live i t.cars

abbrev pub stored : Tables → ℕ → Option Rental
stored t i = find_rental i t.rentals

-- 1 for a row that passes the test.
abbrev pub weight {ℓ} : {A : Type ℓ} → (A → Bool) → Option A → ℕ
weight p none = 0
weight p (some a) = if p a then 1 else 0

-- What the groups count for a status.
abbrev pub total : CarStatus → List (CarStatus × ℕ) → ℕ
total s [] = 0
total s ((s', n) ∷ gs) = (if status_eq s' s then n else 0) + total s gs

-- What a call that has returned leaves: the row that it returns, and each key's row.
abbrev pub CarAdded : ℕ → Car → Tables → Car → Tables → Type 0
CarAdded n car u row u' =
    (row ≡ created_car n (record car { id = row.id }))
    × (live u row.id ≡ none)
    × ((j : ℕ) → live u' j ≡ (if row.id == j then some row else live u j))

abbrev pub CarUpdated : ℕ → Car → Tables → Car → Tables → Type 0
CarUpdated n car u row u' =
    (row ≡ car)
    × ((j : ℕ) → live u' j ≡ (if car.id == j then some (updated_car n car) else live u j))

abbrev pub CarDeleted : ℕ → ℕ → Car → Tables → Car → Tables → Type 0
CarDeleted n instant car u row u' =
    (row ≡ updated_car n (record car { deleted_at = some instant }))
    × ((j : ℕ) → live u' j ≡ (if car.id == j then none else live u j))

abbrev pub RentalAdded : ℕ → Rental → Tables → Rental → Tables → Type 0
RentalAdded n rental u row u' =
    (row ≡ created_rental n (record rental { id = row.id }))
    × (stored u row.id ≡ none)
    × ((j : ℕ) → stored u' j ≡ (if row.id == j then some row else stored u j))

abbrev pub RentalUpdated : ℕ → Rental → Tables → Rental → Tables → Type 0
RentalUpdated n rental u row u' =
    (row ≡ rental)
    × ((j : ℕ)
        → stored u' j ≡ (if rental.id == j then some (updated_rental n rental) else stored u j))

module _ {D : Database} {P : Publisher} where
  abbrev pub seen : World D P → Tables
  seen w = (D.view w.session).visible

  -- A call that writes only works on the session. It returns, or it raises an error of the database;
  -- it stores nothing yet.
  abbrev pub Ends :
      {A : Type 0} → World D P → Tables → Result A × World D P → (A → Tables → Type 0) → Type 0
  Ends {A} w t r Q =
      ((a : A) × (s : D.Session) × (r ≡ (ok a, record w { session = s }))
        × ((D.view s).committed ≡ t)
        × Q a (D.view s).visible)
      ⊎ ((x : DbError) × (s : D.Session) × (r ≡ (raised (database x), record w { session = s }))
          × ((D.view s).committed ≡ t))

  pub record IsCarRepository (R : CarRepository D P) : Type 0 where
    pub gets : (i : ℕ) (w : World D P) → R.get_by_id i w ≡ (ok (live (seen w) i), w)
    pub gets_locked :
        (i : ℕ) (w : World D P)
        → R.get_by_id_for_update i w
          ≡ (ok (live (seen w) i), record w { locks = car_lock i ∷ w.locks })
    pub lists :
        (status : Option CarStatus) (w : World D P)
        → CarKeys (seen w).cars
        → (cs : List Car) × (R.list status w ≡ (ok cs, w))
          × IsSorted (λ (c : Car). c.id) cs
          × ((i : ℕ) → count (λ c. c.id == i) cs ≡ weight (has_status status) (live (seen w) i))
    pub counts :
        (w : World D P)
        → (gs : List (CarStatus × ℕ)) × (R.count_by_status w ≡ (ok gs, w))
          × ((s : CarStatus) → total s gs ≡ count (has_status (some s)) (seen w).cars)
    pub adds :
        (car : Car) (w : World D P) (t u : Tables) (n : ℕ)
        → D.view w.session ≡ at t u [] n
        → is_deleted car ≡ false
        → Ends w t (R.add car w) (CarAdded n car u)
    -- after an assignment to attributes of a car that is there
    pub updates :
        (car old : Car) (w : World D P) (t u : Tables) (n : ℕ)
        → D.view w.session ≡ at t u (update_car car ∷ []) n
        → CarKeys u.cars
        → is_deleted car ≡ false
        → live u car.id ≡ some old
        → Ends w t (R.update car w) (CarUpdated n car u)
    pub soft_deletes :
        (instant : ℕ) (car : Car) (w : World D P) (t u : Tables) (n : ℕ)
        → D.view w.session ≡ at t u [] n
        → Ends w t (R.soft_delete instant car w) (CarDeleted n instant car u)

  pub record IsRentalRepository (R : RentalRepository D P) : Type 0 where
    pub gets : (i : ℕ) (w : World D P) → R.get_by_id i w ≡ (ok (stored (seen w) i), w)
    pub gets_locked :
        (i : ℕ) (w : World D P)
        → R.get_by_id_for_update i w
          ≡ (ok (stored (seen w) i), record w { locks = rental_lock i ∷ w.locks })
    pub gets_active :
        (car_id : ℕ) (w : World D P)
        → (o : Option Rental) × (R.get_active_by_car car_id w ≡ (ok o, w))
          × ((o ≡ none) ↔ (open_count car_id (seen w).rentals ≡ 0))
          × ((r : Rental) → o ≡ some r → is_open_for car_id r ≡ true)
    pub lists_active :
        (w : World D P)
        → (rs : List Rental) × (R.list_active w ≡ (ok rs, w))
          × IsSorted (λ (r : Rental). r.id) rs
          × ((p : Rental → Bool) → count p rs ≡ count (λ r. is_active r && p r) (seen w).rentals)
          × (R.count_active w ≡ (ok (length rs), w))
    pub adds :
        (rental : Rental) (w : World D P) (t u : Tables) (n : ℕ)
        → D.view w.session ≡ at t u [] n
        → Ends w t (R.add rental w) (RentalAdded n rental u)
    pub updates :
        (rental old : Rental) (w : World D P) (t u : Tables) (n : ℕ)
        → D.view w.session ≡ at t u (update_rental rental ∷ []) n
        → stored u rental.id ≡ some old
        → Ends w t (R.update rental w) (RentalUpdated n rental u)
