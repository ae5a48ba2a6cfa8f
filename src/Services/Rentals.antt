-- ===== src/Services/Rentals.antt =====
-- `RentalService` of app/services/rental_service.py. `today` is what `date.today()` returns.
use drive_now.Base.{ℕ, String, Bool, not, Option, none, some, [], ◌∷◌, ◌==◌, ltb, if◌then◌else◌}
use drive_now.Models.{CarStatus, available, in_use, status_eq, Car, Rental}
use drive_now.Database.{Database}
use drive_now.Messaging.{Publisher, Event, int}
use drive_now.Schemas.{RentalCreate}
use drive_now.Services.Errors.{
  DomainError, car_not_found, rental_not_found, car_not_available, has_status, has_active_rental,
  rental_already_ended, rental_must_start_today, return_before_start,
}
use drive_now.Action.{Action, ◌>>=◌, ◌>>◌, pure, throw, write_line, rental_started, rental_ended}
use drive_now.Repositories.Cars
use drive_now.Repositories.Rentals
use drive_now.Services.Transaction.{transaction, publish}

abbrev pub new_rental : Car → RentalCreate → Rental
new_rental car dto = record {
  id = 0;
  car_id = car.id;
  customer_name = dto.customer_name;
  start_date = dto.start_date;
  end_date = dto.end_date;
  returned_date = none;
  created_at = 0;
  updated_at = 0;
}

abbrev pub rental_event : String → ℕ → ℕ → Event
rental_event name rental_id car_id = record {
  event_type = name;
  payload = ("rental_id", int rental_id) ∷ ("car_id", int car_id) ∷ [];
}

module _ {D : Database} {P : Publisher} where
  -- `if x is None: raise ...`
  abbrev pub or_throw : {A : Type 0} → DomainError → Option A → Action D P A
  or_throw e none = throw e
  or_throw e (some a) = pure a

  -- `if test: raise ...`
  abbrev pub throw_if : Bool → DomainError → Action D P (Unit {0})
  throw_if test e = if test then throw e else pure tt

  -- `if x is not None: raise ...`
  abbrev pub throw_if_some : {A : Type 0} → Option A → DomainError → Action D P (Unit {0})
  throw_if_some none e = pure tt
  throw_if_some (some _) e = throw e

  -- `car.status = status`: an assignment of the value that the car has leaves nothing to write.
  unfoldable pub set_status : CarStatus → Car → Action D P Car
  set_status status car =
      if status_eq car.status status
      then pure car
      else Cars.set_attributes (record car { status = status })

  -- The writes of `register_rental`, for a car that may be rented.
  unfoldable pub start_rental : RentalCreate → Car → Action D P (Rental × Car)
  start_rental dto car = do
    rental ← Rentals.add (new_rental car dto)
    car' ← set_status in_use car
    Cars.update car'
    pure (rental, car')

  unfoldable pub lend : RentalCreate → Car → Action D P (Rental × Car)
  lend dto car = do
    throw_if (not (status_eq car.status available))
        (car_not_available dto.car_id (has_status car.status))
    active ← Rentals.get_active_by_car car.id
    throw_if_some active (car_not_available dto.car_id has_active_rental)
    start_rental dto car

  unfoldable pub register_body : RentalCreate → Action D P (Rental × Car)
  register_body dto = do
    car ← (do or_throw (car_not_found dto.car_id) (← Cars.get_by_id_for_update dto.car_id))
    lend dto car

  unfoldable pub register_rental : (today : ℕ) → RentalCreate → Action D P Rental
  unfolding register_body
  register_rental today dto = do
    throw_if (not (dto.start_date == today)) rental_must_start_today
    both ← transaction (register_body dto)
    let rental = both.0
    let car = both.1
    write_line (rental_started rental.id car.id rental.start_date rental.end_date)
    publish (rental_event "rental.started" rental.id car.id)
    pure rental

  -- The writes of `end_rental`, on the two locked rows.
  unfoldable pub close_rental : (today : ℕ) → Rental → Car → Action D P (Rental × Car)
  close_rental today rental car = do
    rental' ← Rentals.set_attributes (record rental { returned_date = some today })
    car' ← set_status available car
    Rentals.update rental'
    Cars.update car'
    pure (rental', car')

  unfoldable pub take_back : (today rental_id : ℕ) → Rental → Car → Action D P (Rental × Car)
  take_back today rental_id rental car = do
    throw_if_some rental.returned_date (rental_already_ended rental_id)
    throw_if (ltb today rental.start_date) return_before_start
    close_rental today rental car

  -- An unlocked read finds the car; then the car is locked, then the rental, which is read again.
  unfoldable pub end_body : (today rental_id : ℕ) → Action D P (Rental × Car)
  end_body today rental_id = do
    candidate ← (do or_throw (rental_not_found rental_id) (← Rentals.get_by_id rental_id))
    car ← (do
      or_throw (car_not_found candidate.car_id) (← Cars.get_by_id_for_update candidate.car_id))
    rental ← (do or_throw (rental_not_found rental_id) (← Rentals.get_by_id_for_update rental_id))
    take_back today rental_id rental car

  unfoldable pub end_rental : (today rental_id : ℕ) → Action D P Rental
  unfolding end_body
  end_rental today rental_id = do
    both ← transaction (end_body today rental_id)
    let rental = both.0
    let car = both.1
    write_line (rental_ended rental.id car.id rental.returned_date)
    publish (rental_event "rental.ended" rental.id car.id)
    pure rental
