-- ===== src/Fleet.antt =====
-- What each service method promises, as a function of the tables that hold before it: it is refused
-- with an error, or accepted with a result and the tables that hold after it. Sessions, flushes,
-- commits, events and the log are left out.
pub mod Consistent
pub mod Invariant
pub mod Accepted
pub mod Renting
pub mod Ending
pub mod Revision
pub mod Retention
use drive_now.Base.{ℕ, Option, none, some, List, [], ◌∷◌, ◌==◌, ltb, if◌then◌else◌}
use drive_now.Models.{CarStatus, available, in_use, status_eq, Car, Rental}
use drive_now.Models.Tables.{Tables, updated_car, updated_rental, put_car, put_rental, find_rental}
use drive_now.Schemas.{CarCreate, CarUpdate, RentalCreate}
use drive_now.Services.Errors.{
  DomainError, car_not_found, rental_not_found, car_not_available, has_status, has_active_rental,
  car_status_transition, car_has_active_rental, rental_already_ended, return_before_start,
  rental_must_start_today,
}
use drive_now.Services.Cars.{
  Assignment, Update, same, changed, actual, new_status, illegal, set_all, changed_names,
}
use drive_now.Repositories.Cars.{find_live}
use drive_now.Repositories.Rentals.{active_of}

pub data Verdict (A : Type 0) : Type 0 where
  accepts : A → Tables → Verdict A
  refuses : DomainError → Verdict A

-- The method goes on with a row that is found.
abbrev pub on_found : {A B : Type 0} → Option A → DomainError → (A → Verdict B) → Verdict B
on_found none e f = refuses e
on_found (some a) e f = f a

-- The row of a new car.
abbrev pub added : (now car_id : ℕ) → CarCreate → Car
added now car_id dto = record {
  id = car_id;
  model = dto.model;
  year = dto.year;
  status = available;
  deleted_at = none;
  created_at = now;
  updated_at = now;
}

unfoldable pub add : (now car_id : ℕ) → CarCreate → Tables → Verdict Car
add now car_id dto t =
    let car = added now car_id dto in accepts car (record t { cars = car ∷ t.cars })

abbrev pub save : ℕ → Car → List Assignment → Tables → Verdict Update
save now car assigned t = elim (illegal car.status (new_status assigned)) [
  | some new ↦ refuses (car_status_transition car.status new)
  | none ↦
      let car' = updated_car now (set_all car assigned) in
      accepts (changed car' (changed_names assigned)) (record t { cars = put_car car' t.cars })
]

abbrev pub save_actual : ℕ → Car → List Assignment → Tables → Verdict Update
save_actual now car [] t = accepts (same car) t
save_actual now car (a ∷ rest) t = save now car (a ∷ rest) t

unfoldable pub update : (now car_id : ℕ) → CarUpdate → Tables → Verdict Update
update now car_id dto t =
    on_found (find_live car_id t.cars) (car_not_found car_id)
      (λ car. save_actual now car (actual car dto) t)

-- The row of a car that is retired.
abbrev pub retired : (now instant : ℕ) → Car → Car
retired now instant car = updated_car now (record car { deleted_at = some instant })

unfoldable pub delete : (now instant car_id : ℕ) → Tables → Verdict Car
delete now instant car_id t = on_found (find_live car_id t.cars) (car_not_found car_id) λ car.
    elim (active_of car_id t) [
      | some _ ↦ refuses (car_has_active_rental car_id)
      | none ↦
          let car' = retired now instant car in
          accepts car' (record t { cars = put_car car' t.cars })
    ]

abbrev pub rented : (now rental_id : ℕ) → RentalCreate → Car → Rental
rented now rental_id dto car = record {
  id = rental_id;
  car_id = car.id;
  customer_name = dto.customer_name;
  start_date = dto.start_date;
  end_date = dto.end_date;
  returned_date = none;
  created_at = now;
  updated_at = now;
}

-- The car with another status, and untouched if it has that status.
abbrev pub with_status : ℕ → CarStatus → Car → Car
with_status now status car =
    if status_eq car.status status then car else updated_car now (record car { status = status })

abbrev pub put_status : ℕ → CarStatus → Car → List Car → List Car
put_status now status car cars =
    if status_eq car.status status
    then cars
    else put_car (updated_car now (record car { status = status })) cars

abbrev pub lend : (now rental_id : ℕ) → RentalCreate → Car → Tables → Verdict (Rental × Car)
lend now rental_id dto car t =
    if status_eq car.status available
    then elim (active_of car.id t) [
      | some _ ↦ refuses (car_not_available dto.car_id has_active_rental)
      | none ↦
          let rental = rented now rental_id dto car in
          accepts (rental, with_status now in_use car)
            (record { cars = put_status now in_use car t.cars; rentals = rental ∷ t.rentals })
    ]
    else refuses (car_not_available dto.car_id (has_status car.status))

-- What `register_rental` promises once the start date is known to be today.
unfoldable pub rent : (now rental_id : ℕ) → RentalCreate → Tables → Verdict (Rental × Car)
rent now rental_id dto t =
    on_found (find_live dto.car_id t.cars) (car_not_found dto.car_id)
      (λ car. lend now rental_id dto car t)

unfoldable pub register : (now rental_id today : ℕ) → RentalCreate → Tables → Verdict (Rental × Car)
unfolding rent
register now rental_id today dto t =
    if dto.start_date == today then rent now rental_id dto t else refuses rental_must_start_today

abbrev pub returned : (now today : ℕ) → Rental → Rental
returned now today rental = updated_rental now (record rental { returned_date = some today })

abbrev pub take_back : (now today rental_id : ℕ) → Rental → Car → Tables → Verdict (Rental × Car)
take_back now today rental_id rental car t = elim rental.returned_date [
  | some _ ↦ refuses (rental_already_ended rental_id)
  | none ↦
      if ltb today rental.start_date
      then refuses return_before_start
      else let rental' = returned now today rental in
        accepts (rental', with_status now available car)
          (record {
            cars = put_status now available car t.cars;
            rentals = put_rental rental' t.rentals;
          })
]

unfoldable pub finish : (now today rental_id : ℕ) → Tables → Verdict (Rental × Car)
finish now today rental_id t =
    on_found (find_rental rental_id t.rentals) (rental_not_found rental_id) λ rental.
      on_found (find_live rental.car_id t.cars) (car_not_found rental.car_id)
        (λ car. take_back now today rental_id rental car t)
