-- ===== src/Interleaving/Facts.antt =====
-- What a transaction knows of the committed tables while it holds its locks.
use drive_now.Base.{ℕ, ◌≡◌, true, false, none, some, ltb}
use drive_now.Models.{available, status_eq, Car, Rental}
use drive_now.Models.Tables.{Tables, find_rental}
use drive_now.Services.Cars.{actual, new_status, illegal}
use drive_now.Repositories.Cars.{find_live}
use drive_now.Repositories.Rentals.{active_of}
use drive_now.History.{Call, add, update, delete, register, finish}
use drive_now.Interleaving.Points.{
  Point, ready, candidate, locked, written_car, written_update, written_retired, written_rental,
  written_return, refused, committed, aborted,
}

-- The row of a car that is locked is as it was read.
abbrev pub IsLive : Car → Tables → Type 0
IsLive car t = find_live car.id t.cars ≡ some car

-- A rental of this key is there, and it is one of that car.
abbrev pub IsOf : (rental_id car_id : ℕ) → Tables → Type 0
IsOf rental_id car_id t =
    (r : Rental) × (find_rental rental_id t.rentals ≡ some r) × (r.car_id ≡ car_id)

-- The car is the one that the call is about.
abbrev pub IsAbout : Call → Car → Tables → Type 0
IsAbout (add dto) car t = ⊥
IsAbout (update car_id dto) car t = car_id ≡ car.id
IsAbout (delete instant car_id) car t = car_id ≡ car.id
IsAbout (register today dto) car t = (dto.start_date ≡ today) × (dto.car_id ≡ car.id)
IsAbout (finish today rental_id) car t = IsOf rental_id car.id t

abbrev pub IsCandidate : Call → Rental → Tables → Type 0
IsCandidate (finish today rental_id) r t = IsOf rental_id r.car_id t
IsCandidate (add dto) r t = ⊥
IsCandidate (update car_id dto) r t = ⊥
IsCandidate (delete instant car_id) r t = ⊥
IsCandidate (register today dto) r t = ⊥

abbrev pub IsAdd : Call → Type 0
IsAdd (add dto) = Unit {0}
IsAdd (update car_id dto) = ⊥
IsAdd (delete instant car_id) = ⊥
IsAdd (register today dto) = ⊥
IsAdd (finish today rental_id) = ⊥

-- The tests that were passed.
abbrev pub MayUpdate : Call → Car → Type 0
MayUpdate (update car_id dto) car =
    (car_id ≡ car.id) × (illegal car.status (new_status (actual car dto)) ≡ none)
MayUpdate (add dto) car = ⊥
MayUpdate (delete instant car_id) car = ⊥
MayUpdate (register today dto) car = ⊥
MayUpdate (finish today rental_id) car = ⊥

abbrev pub MayRetire : Call → Car → Tables → Type 0
MayRetire (delete instant car_id) car t = (car_id ≡ car.id) × (active_of car.id t ≡ none)
MayRetire (add dto) car t = ⊥
MayRetire (update car_id dto) car t = ⊥
MayRetire (register today dto) car t = ⊥
MayRetire (finish today rental_id) car t = ⊥

abbrev pub MayRent : Call → Car → Tables → Type 0
MayRent (register today dto) car t =
    (dto.start_date ≡ today)
    × (dto.car_id ≡ car.id)
    × (status_eq car.status available ≡ true)
    × (active_of car.id t ≡ none)
MayRent (add dto) car t = ⊥
MayRent (update car_id dto) car t = ⊥
MayRent (delete instant car_id) car t = ⊥
MayRent (finish today rental_id) car t = ⊥

abbrev pub MayReturn : Call → Rental → Car → Tables → Type 0
MayReturn (finish today rental_id) r car t =
    (find_rental rental_id t.rentals ≡ some r)
    × (r.car_id ≡ car.id)
    × (r.returned_date ≡ none)
    × (ltb today r.start_date ≡ false)
MayReturn (add dto) r car t = ⊥
MayReturn (update car_id dto) r car t = ⊥
MayReturn (delete instant car_id) r car t = ⊥
MayReturn (register today dto) r car t = ⊥

abbrev pub Known : Call → Point → Tables → Type 0
Known call ready t = Unit {0}
Known call (candidate r) t = IsCandidate call r t
Known call (locked car) t = IsLive car t × IsAbout call car t
Known call written_car t = IsAdd call
Known call (written_update car) t = IsLive car t × MayUpdate call car
Known call (written_retired car) t = IsLive car t × MayRetire call car t
Known call (written_rental car) t = IsLive car t × MayRent call car t
Known call (written_return r car) t = IsLive car t × MayReturn call r car t
Known call (refused e) t = Unit {0}
Known call committed t = Unit {0}
Known call aborted t = Unit {0}
