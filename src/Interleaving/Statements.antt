-- ===== src/Interleaving/Statements.antt =====
-- The statements of the methods of app/services, one at a time. The isolation is READ COMMITTED,
-- PostgreSQL's default: a statement reads what is committed when it runs.
use drive_now.Base.{ℕ, none, some, ◌==◌, ltb, if◌then◌else◌}
use drive_now.Models.{available, status_eq, Car, Rental}
use drive_now.Models.Tables.{Tables, find_rental}
use drive_now.Services.Errors.{
  car_not_found, rental_not_found, car_not_available, has_status, has_active_rental,
  car_status_transition, car_has_active_rental, rental_already_ended, return_before_start,
  rental_must_start_today,
}
use drive_now.Services.Cars.{actual, new_status, illegal}
use drive_now.Repositories.Cars.{find_live}
use drive_now.Repositories.Rentals.{active_of}
use drive_now.History.{Call, add, update, delete, register, finish}
use drive_now.Interleaving.Points.{
  Point, ready, candidate, locked, written_car, written_update, written_retired, written_rental,
  written_return, refused, committed, aborted,
}

-- `get_by_id_for_update` of a car, and the test of what it finds.
abbrev pub read_car : ℕ → Tables → Point
read_car car_id t = elim (find_live car_id t.cars) [
  | none ↦ refused (car_not_found car_id)
  | some car ↦ locked car
]

abbrev pub at_ready : Call → Tables → Point
at_ready (add dto) t = written_car
at_ready (update car_id dto) t = read_car car_id t
at_ready (delete instant car_id) t = read_car car_id t
at_ready (register today dto) t =
    if dto.start_date == today then read_car dto.car_id t else refused rental_must_start_today
at_ready (finish today rental_id) t = elim (find_rental rental_id t.rentals) [
  | none ↦ refused (rental_not_found rental_id)
  | some r ↦ candidate r
]

-- The tests on a rental that is locked and read again.
abbrev pub return_tests : (today rental_id : ℕ) → Rental → Car → Point
return_tests today rental_id r car = elim r.returned_date [
  | some _ ↦ refused (rental_already_ended rental_id)
  | none ↦ if ltb today r.start_date then refused return_before_start else written_return r car
]

abbrev pub at_locked : Call → Car → Tables → Point
at_locked (add dto) car t = aborted
at_locked (update car_id dto) car t = elim (illegal car.status (new_status (actual car dto))) [
  | some new ↦ refused (car_status_transition car.status new)
  | none ↦ written_update car
]
at_locked (delete instant car_id) car t = elim (active_of car_id t) [
  | some _ ↦ refused (car_has_active_rental car_id)
  | none ↦ written_retired car
]
at_locked (register today dto) car t =
    if status_eq car.status available
    then elim (active_of car.id t) [
      | some _ ↦ refused (car_not_available dto.car_id has_active_rental)
      | none ↦ written_rental car
    ]
    else refused (car_not_available dto.car_id (has_status car.status))
at_locked (finish today rental_id) car t = elim (find_rental rental_id t.rentals) [
  | none ↦ refused (rental_not_found rental_id)
  | some r ↦ return_tests today rental_id r car
]

-- The next statement of a transaction that has not written yet, and the tests up to the one after it.
abbrev pub react : Call → Tables → Point → Point
react call t ready = at_ready call t
react call t (candidate r) = read_car r.car_id t
react call t (locked car) = at_locked call car t
react call t written_car = written_car
react call t (written_update car) = written_update car
react call t (written_retired car) = written_retired car
react call t (written_rental car) = written_rental car
react call t (written_return r car) = written_return r car
react call t (refused e) = refused e
react call t committed = committed
react call t aborted = aborted
