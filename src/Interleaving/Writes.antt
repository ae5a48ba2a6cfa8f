-- ===== src/Interleaving/Writes.antt =====
-- What the transaction of a request has written, by the method of app/services that it runs. The
-- others see it when the transaction commits, all at once.
use drive_now.Base.{ℕ, some, List, [], ◌∷◌, if◌then◌else◌}
use drive_now.Models.{CarStatus, available, in_use, status_eq, Car, Rental}
use drive_now.Models.Tables.{Tables, Change, insert_car, update_car, insert_rental, update_rental}
use drive_now.Services.Cars.{Assignment, new_car, actual, set_all}
use drive_now.Services.Rentals.{new_rental}
use drive_now.Services.Errors.{DomainError}
use drive_now.Fleet
use drive_now.Fleet.{Verdict, accepts}
use drive_now.History.{Call, add, update, delete, register, finish}
use drive_now.Interleaving.Points.{
  Point, ready, candidate, locked, written_car, written_update, written_retired, written_rental,
  written_return, refused, committed, aborted,
}

-- What a transaction runs, its `now()`, and the primary key that its INSERT draws from the sequence.
pub record Job : Type 0 where
  pub call : Call
  pub now : ℕ
  pub car_key : ℕ
  pub rental_key : ℕ

-- An assignment of the status that the car has is no change.
abbrev pub status_changes : CarStatus → Car → List Change
status_changes status car =
    if status_eq car.status status then [] else update_car (record car { status = status }) ∷ []

abbrev pub update_changes : Car → List Assignment → List Change
update_changes car [] = []
update_changes car (a ∷ rest) = update_car (set_all car (a ∷ rest)) ∷ []

abbrev pub add_writes : Call → ℕ → List Change
add_writes (add dto) key = insert_car (record (new_car dto) { id = key }) ∷ []
add_writes (update car_id dto) key = []
add_writes (delete instant car_id) key = []
add_writes (register today dto) key = []
add_writes (finish today rental_id) key = []

abbrev pub update_writes : Call → Car → List Change
update_writes (update car_id dto) car = update_changes car (actual car dto)
update_writes (add dto) car = []
update_writes (delete instant car_id) car = []
update_writes (register today dto) car = []
update_writes (finish today rental_id) car = []

abbrev pub retire_writes : Call → Car → List Change
retire_writes (delete instant car_id) car =
    update_car (record car { deleted_at = some instant }) ∷ []
retire_writes (add dto) car = []
retire_writes (update car_id dto) car = []
retire_writes (register today dto) car = []
retire_writes (finish today rental_id) car = []

abbrev pub rent_writes : Call → ℕ → Car → List Change
rent_writes (register today dto) key car =
    insert_rental (record (new_rental car dto) { id = key }) ∷ status_changes in_use car
rent_writes (add dto) key car = []
rent_writes (update car_id dto) key car = []
rent_writes (delete instant car_id) key car = []
rent_writes (finish today rental_id) key car = []

abbrev pub return_writes : Call → Rental → Car → List Change
return_writes (finish today rental_id) r car =
    update_rental (record r { returned_date = some today }) ∷ status_changes available car
return_writes (add dto) r car = []
return_writes (update car_id dto) r car = []
return_writes (delete instant car_id) r car = []
return_writes (register today dto) r car = []

-- What a transaction has flushed.
abbrev pub changes : Job → Point → List Change
changes q written_car = add_writes q.call q.car_key
changes q (written_update car) = update_writes q.call car
changes q (written_retired car) = retire_writes q.call car
changes q (written_rental car) = rent_writes q.call q.rental_key car
changes q (written_return r car) = return_writes q.call r car
changes q ready = []
changes q (candidate r) = []
changes q (locked car) = []
changes q (refused e) = []
changes q committed = []
changes q aborted = []

-- What a promise answers: the tables that it stores, or the error of its refusal.
pub data Answer : Type 0 where
  stores : Tables → Answer
  refuses : DomainError → Answer

abbrev pub answer_of : {A : Type 0} → Verdict A → Answer
answer_of (accepts a t) = stores t
answer_of (Verdict.refuses e) = refuses e

-- The promise of the method that a transaction runs.
abbrev pub promised : (now car_key rental_key : ℕ) → Call → Tables → Answer
promised now car_key rental_key (add dto) t = answer_of (Fleet.add now car_key dto t)
promised now car_key rental_key (update car_id dto) t = answer_of (Fleet.update now car_id dto t)
promised now car_key rental_key (delete instant car_id) t =
    answer_of (Fleet.delete now instant car_id t)
promised now car_key rental_key (register today dto) t =
    answer_of (Fleet.register now rental_key today dto t)
promised now car_key rental_key (finish today rental_id) t =
    answer_of (Fleet.finish now today rental_id t)

abbrev pub promise : Job → Tables → Answer
promise q t = promised q.now q.car_key q.rental_key q.call t
