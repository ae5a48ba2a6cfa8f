-- ===== src/Services/Cars.antt =====
-- `CarService` of app/services/car_service.py.
use Prim.Native.String.{compare}
use Prim.Native.Nat.{Ordering}
use drive_now.Base.{
  ℕ, String, Bool, true, false, not, ◌||◌, Option, none, some, List, [], ◌∷◌, map, ◌==◌,
  if◌then◌else◌, keep,
}
use text.Mathlib.Text.{◌==◌ as str_eq}
use drive_now.Base.Sorting.{sort_by}
use drive_now.Models.{CarStatus, available, in_use, under_maintenance, status_eq, Car}
use drive_now.Database.{Database}
use drive_now.Messaging.{Publisher, Event, int, names}
use drive_now.Schemas.{CarCreate, CarUpdate}
use drive_now.Services.Errors.{car_not_found, car_status_transition, car_has_active_rental}
use drive_now.Action.{
  Action, ◌>>=◌, ◌>>◌, pure, throw, write_line, car_added, car_updated, car_retired,
}
use drive_now.Repositories.Cars
use drive_now.Repositories.Rentals
use drive_now.Services.Transaction.{transaction, publish}

-- `_ALLOWED_STATUS_TARGETS`
abbrev pub allowed_targets : CarStatus → List CarStatus
allowed_targets available = available ∷ under_maintenance ∷ []
allowed_targets under_maintenance = under_maintenance ∷ available ∷ []
allowed_targets in_use = in_use ∷ []

abbrev pub is_in : CarStatus → List CarStatus → Bool
is_in s [] = false
is_in s (x ∷ xs) = status_eq s x || is_in s xs

-- An entry of `dto.model_dump(exclude_unset=True)`.
pub data Assignment : Type 0 where
  set_model : String → Assignment
  set_year : ℕ → Assignment
  set_status : CarStatus → Assignment

abbrev pub optional {ℓ κ} : {A : Type ℓ} {B : Type κ} → (A → B) → Option A → List B → List B
optional f none rest = rest
optional f (some a) rest = f a ∷ rest

unfoldable pub requested : CarUpdate → List Assignment
requested dto =
    optional set_model dto.model (optional set_year dto.year (optional set_status dto.status []))

-- `getattr(car, k) != v`
abbrev pub differs : Car → Assignment → Bool
differs car (set_model m) = not (str_eq car.model m)
differs car (set_year y) = not (car.year == y)
differs car (set_status s) = not (status_eq car.status s)

-- The entries that make a real change.
unfoldable pub actual : Car → CarUpdate → List Assignment
unfolding requested
actual car dto = keep (differs car) (requested dto)

-- `actual.get("status")`
abbrev pub new_status : List Assignment → Option CarStatus
new_status [] = none
new_status (set_status s ∷ rest) = some s
new_status (set_model m ∷ rest) = new_status rest
new_status (set_year y ∷ rest) = new_status rest

-- `new_status is not None and new_status not in _ALLOWED_STATUS_TARGETS[car.status]`
abbrev pub illegal : CarStatus → Option CarStatus → Option CarStatus
illegal old none = none
illegal old (some new) = if is_in new (allowed_targets old) then none else some new

-- `setattr(car, field, value)`
abbrev pub set_attr : Car → Assignment → Car
set_attr car (set_model m) = record car { model = m }
set_attr car (set_year y) = record car { year = y }
set_attr car (set_status s) = record car { status = s }

abbrev pub set_all : Car → List Assignment → Car
set_all car [] = car
set_all car (a ∷ rest) = set_all (set_attr car a) rest

abbrev pub field : Assignment → String
field (set_model m) = "model"
field (set_year y) = "year"
field (set_status s) = "status"

abbrev pub str_le : String → String → Bool
str_le a b = elim (compare a b) [ Ordering.gt ↦ false | _ ↦ true ]

-- `sorted(actual)`
abbrev pub changed_names : List Assignment → List String
changed_names assigned = sort_by str_le (map field assigned)

-- `Car(model=..., year=...)`: the key and the instants are assigned by the flush, and the status by
-- the column's default.
abbrev pub new_car : CarCreate → Car
new_car dto = record {
  id = 0;
  model = dto.model;
  year = dto.year;
  status = available;
  deleted_at = none;
  created_at = 0;
  updated_at = 0;
}

abbrev pub car_event : String → ℕ → Event
car_event name car_id = record { event_type = name; payload = ("car_id", int car_id) ∷ [] }

abbrev pub updated_event : ℕ → List String → Event
updated_event car_id changed = record {
  event_type = "car.updated";
  payload = ("car_id", int car_id) ∷ ("changed", names changed) ∷ [];
}

-- How the transaction of `update_car` ends: by the early return, or with the changed fields.
pub data Update : Type 0 where
  same : Car → Update
  changed : Car → List String → Update

module _ {D : Database} {P : Publisher} where
  unfoldable pub add_car : CarCreate → Action D P Car
  add_car dto = do
    car ← transaction (Cars.add (new_car dto))
    write_line (car_added car.id car.model car.year)
    publish (car_event "car.added" car.id)
    pure car

  -- `if car is None: raise CarNotFoundError`
  abbrev pub found : ℕ → Option Car → Action D P Car
  found car_id none = throw (car_not_found car_id)
  found car_id (some car) = pure car

  -- The assignments, once they are known to be real changes.
  abbrev pub write_changes : Car → List Assignment → Action D P Update
  write_changes car assigned = elim (illegal car.status (new_status assigned)) [
    | some new ↦ throw (car_status_transition car.status new)
    | none ↦ do
      car' ← Cars.set_attributes (set_all car assigned)
      Cars.update car'
      pure (changed car' (changed_names assigned))
  ]

  abbrev pub write_actual : Car → List Assignment → Action D P Update
  write_actual car [] = pure (same car)
  write_actual car (a ∷ rest) = write_changes car (a ∷ rest)

  unfoldable pub update_body : ℕ → CarUpdate → Action D P Update
  update_body car_id dto = do
    car ← (do found car_id (← Cars.get_by_id_for_update car_id))
    write_actual car (actual car dto)

  abbrev pub report_update : Update → Action D P Car
  report_update (same car) = pure car
  report_update (changed car fields) = do
    write_line (car_updated car.id fields)
    publish (updated_event car.id fields)
    pure car

  unfoldable pub update_car : ℕ → CarUpdate → Action D P Car
  unfolding update_body
  update_car car_id dto = do report_update (← transaction (update_body car_id dto))

  unfoldable pub list_cars : Option CarStatus → Action D P (List Car)
  list_cars status = Cars.list status

  unfoldable pub delete_body : (instant car_id : ℕ) → Action D P Car
  delete_body instant car_id = do
    car ← (do found car_id (← Cars.get_by_id_for_update car_id))
    active ← Rentals.get_active_by_car car_id
    elim active [
      | some _ ↦ throw (car_has_active_rental car_id)
      | none ↦ Cars.soft_delete instant car
    ]

  -- `instant` is what `datetime.now(UTC)` returns.
  unfoldable pub delete_car : (instant car_id : ℕ) → Action D P Car
  unfolding delete_body
  delete_car instant car_id = do
    car ← transaction (delete_body instant car_id)
    write_line (car_retired car.id)
    publish (car_event "car.deleted" car.id)
    pure car
