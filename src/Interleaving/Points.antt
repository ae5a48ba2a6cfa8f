-- ===== src/Interleaving/Points.antt =====
-- Where the transaction of a request stands in its method of app/services, and the row locks that it
-- holds there and asks for next.
use drive_now.Base.{ℕ, Bool, true, false, Option, none, some, ◌==◌, if◌then◌else◌}
use drive_now.Models.{Car, Rental}
use drive_now.Services.Errors.{DomainError}
use drive_now.History.{Call, add, update, delete, register, finish}

-- Where a transaction stands, with the rows that it has read.
pub data Point : Type 0 where
  ready : Point
  -- `end_rental` has read the rental without a lock
  candidate : Rental → Point
  -- the car's row is locked and read
  locked : Car → Point
  -- every test was passed, and the writes of the method are flushed
  written_car : Point
  written_update written_retired written_rental : Car → Point
  -- `end_rental` holds the rental's row too
  written_return : Rental → Car → Point
  -- the transaction is over
  refused : DomainError → Point
  committed aborted : Point

-- The car's row lock that a transaction holds.
abbrev pub holds_car : Point → Option ℕ
holds_car (locked car) = some car.id
holds_car (written_update car) = some car.id
holds_car (written_retired car) = some car.id
holds_car (written_rental car) = some car.id
holds_car (written_return r car) = some car.id
holds_car ready = none
holds_car (candidate r) = none
holds_car written_car = none
holds_car (refused e) = none
holds_car committed = none
holds_car aborted = none

abbrev pub holds_rental : Point → Option ℕ
holds_rental (written_return r car) = some r.id
holds_rental (locked car) = none
holds_rental (written_update car) = none
holds_rental (written_retired car) = none
holds_rental (written_rental car) = none
holds_rental ready = none
holds_rental (candidate r) = none
holds_rental written_car = none
holds_rental (refused e) = none
holds_rental committed = none
holds_rental aborted = none

-- The first statement of a method asks for the lock of a car, unless it has another.
abbrev pub first_lock : Call → Option ℕ
first_lock (add dto) = none
first_lock (update car_id dto) = some car_id
first_lock (delete instant car_id) = some car_id
first_lock (register today dto) = if dto.start_date == today then some dto.car_id else none
first_lock (finish today rental_id) = none

-- The locks that the next statement asks for.
abbrev pub wants_car : Call → Point → Option ℕ
wants_car call ready = first_lock call
wants_car call (candidate r) = some r.car_id
wants_car call (locked car) = none
wants_car call written_car = none
wants_car call (written_update car) = none
wants_car call (written_retired car) = none
wants_car call (written_rental car) = none
wants_car call (written_return r car) = none
wants_car call (refused e) = none
wants_car call committed = none
wants_car call aborted = none

abbrev pub second_lock : Call → Option ℕ
second_lock (finish today rental_id) = some rental_id
second_lock (add dto) = none
second_lock (update car_id dto) = none
second_lock (delete instant car_id) = none
second_lock (register today dto) = none

abbrev pub wants_rental : Call → Point → Option ℕ
wants_rental call (locked car) = second_lock call
wants_rental call ready = none
wants_rental call (candidate r) = none
wants_rental call written_car = none
wants_rental call (written_update car) = none
wants_rental call (written_retired car) = none
wants_rental call (written_rental car) = none
wants_rental call (written_return r car) = none
wants_rental call (refused e) = none
wants_rental call committed = none
wants_rental call aborted = none

abbrev pub is_running : Point → Bool
is_running ready = true
is_running (candidate r) = true
is_running (locked car) = true
is_running written_car = false
is_running (written_update car) = false
is_running (written_retired car) = false
is_running (written_rental car) = false
is_running (written_return r car) = false
is_running (refused e) = false
is_running committed = false
is_running aborted = false

abbrev pub is_written : Point → Bool
is_written written_car = true
is_written (written_update car) = true
is_written (written_retired car) = true
is_written (written_rental car) = true
is_written (written_return r car) = true
is_written ready = false
is_written (candidate r) = false
is_written (locked car) = false
is_written (refused e) = false
is_written committed = false
is_written aborted = false
