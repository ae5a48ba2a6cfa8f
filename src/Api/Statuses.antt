-- ===== src/Api/Statuses.antt =====
-- Which status code a request gets, from the tables and the clock alone.
use drive_now.Base.{
  ℕ, ◌≤◌, ◌≡◌, refl, ◌∙◌, ap, inl, inr, ◌||◌, Option, none, some, List, [], ◌∷◌, arith, ◌==◌, ltb,
  if◌then◌else◌, Bool-cases, Option-cases,
}
use drive_now.Models.{CarStatus, available, in_use, status_eq, Car, Rental}
use drive_now.Models.Tables.{Tables, find_rental}
use drive_now.Schemas.{CarUpdate, RentalCreate}
use drive_now.Schemas.Validation.{validate_car, validate_patch, validate_rental}
use drive_now.Repositories.Cars.{find_live}
use drive_now.Repositories.Rentals.{active_of}
use drive_now.Services.Cars.{actual, illegal, new_status, Assignment}
use drive_now.Fleet
use drive_now.Fleet.{Verdict, accepts, refuses}
use drive_now.Fleet.Consistent.{IsConsistent}
use drive_now.Fleet.Renting.{available-free}
use drive_now.Fleet.Revision.{new_status-actual}
use drive_now.Lifecycle.Cars.{in_use-active}
use drive_now.Refinement.Total.{answer}
use drive_now.Api.{
  status_code, reply, Body, Clock, Request, post_car, get_cars, patch_car, remove_car, post_rental,
  post_end,
}

-- A rental can be registered for today, for a live car that is available.
abbrev pub registering : (today : ℕ) → RentalCreate → Tables → ℕ
registering today dto t =
    if dto.start_date == today
    then elim (find_live dto.car_id t.cars) [
      | none ↦ 404
      | some car ↦ if status_eq car.status available then 201 else 409
    ]
    else 422

-- A rental that is out can be ended from its first day on.
abbrev pub ending_of : (today : ℕ) → Rental → ℕ
ending_of today r = elim r.returned_date [
  | some _ ↦ 409
  | none ↦ if ltb today r.start_date then 422 else 200
]

abbrev pub ending : (today rental_id : ℕ) → Tables → ℕ
ending today rental_id t = elim (find_rental rental_id t.rentals) [
  | none ↦ 404
  | some r ↦ elim (find_live r.car_id t.cars) [ none ↦ 404 | some car ↦ ending_of today r ]
]

-- A live car can be removed unless it is in use.
abbrev pub removing : ℕ → Tables → ℕ
removing car_id t = elim (find_live car_id t.cars) [
  | none ↦ 404
  | some car ↦ if status_eq car.status in_use then 409 else 204
]

-- The status of a live car can be set to what it is, or else neither from nor to in_use.
abbrev pub patching_of : CarStatus → Option CarStatus → ℕ
patching_of old none = 200
patching_of old (some new) =
    if status_eq old new
    then 200
    else if status_eq old in_use || status_eq new in_use
    then 409
    else 200

abbrev pub patching : ℕ → CarUpdate → Tables → ℕ
patching car_id dto t = elim (find_live car_id t.cars) [
  | none ↦ 404
  | some car ↦ patching_of car.status dto.status
]

abbrev pub checked : {B : Type 0} → Option B → (B → ℕ) → ℕ
checked none f = 422
checked (some dto) f = f dto

-- The status code of the response to a request.
abbrev pub expected : Clock → Request → Tables → ℕ
expected clock (post_car b) t = checked (validate_car clock.this_year b) (λ dto. 201)
expected clock (get_cars status) t = 200
expected clock (patch_car car_id b) t =
    if ltb 0 car_id
    then checked (validate_patch clock.this_year b) (λ dto. patching car_id dto t)
    else 422
expected clock (remove_car car_id) t = if ltb 0 car_id then removing car_id t else 422
expected clock (post_rental b) t =
    checked (validate_rental b) (λ dto. registering clock.today dto t)
expected clock (post_end rental_id) t =
    if ltb 0 rental_id then ending clock.today rental_id t else 422

-- The status code of a promise, with the route's own for a success.
abbrev pub code : {A : Type 0} → ℕ → Verdict A → ℕ
code n (accepts a t) = n
code n (refuses e) = status_code e

pub reply-answer :
    {A B : Type 0} (n : ℕ) (f : B → Body) (out : A → B) (v : Verdict A)
    → (reply n f (answer out v)).status ≡ code n v
reply-answer n f out (accepts a t) = refl
reply-answer n f out (refuses e) = refl

pub code-register :
    (now rental_id today : ℕ) (dto : RentalCreate) (t : Tables)
    → IsConsistent t
    → code 201 (Fleet.register now rental_id today dto t) ≡ registering today dto t
unfolding Fleet.register
code-register now rental_id today dto t k = elim (Bool-cases (dto.start_date == today)) [
  | inr x ↦ ground arith
  | inl x ↦ elim (Option-cases (find_live dto.car_id t.cars)) [
    | inl y ↦ ground arith
    | inr (car, y) ↦ elim (Bool-cases (status_eq car.status available)) [
      | inr z ↦ ground arith
      | inl z ↦ ground (arith, available-free dto.car_id car t k y)
    ]
  ]
]

pub code-finish :
    (now today rental_id : ℕ) (t : Tables)
    → code 200 (Fleet.finish now today rental_id t) ≡ ending today rental_id t
unfolding Fleet.finish
code-finish now today rental_id t = ground arith

pub code-delete :
    (now instant car_id : ℕ) (t : Tables)
    → IsConsistent t
    → code 204 (Fleet.delete now instant car_id t) ≡ removing car_id t
unfolding Fleet.delete
code-delete now instant car_id t k = elim (Option-cases (find_live car_id t.cars)) [
  | inl x ↦ ground arith
  | inr (car, x) ↦ elim (Option-cases (active_of car_id t)) [
    | inl y ↦ ground (arith, (in_use-active car_id car t k x).1)
    | inr (r, y) ↦ ground (arith, (in_use-active car_id car t k x).0)
  ]
]

code-save :
    (now : ℕ) (car : Car) (assigned : List Assignment) (t : Tables)
    → code 200 (Fleet.save_actual now car assigned t)
      ≡ elim (illegal car.status (new_status assigned)) [ none ↦ 200 | some s ↦ 409 ]
code-save now car [] t = refl
code-save now car (a ∷ rest) t = ground arith

patching_of-illegal :
    (old : CarStatus) (o : Option CarStatus)
    → elim (illegal old
        (elim o [ none ↦ none | some s ↦ if status_eq old s then none else some s ])) [
          | none ↦ 200
          | some s ↦ 409
        ]
      ≡ patching_of old o
patching_of-illegal old o = ground arith

pub code-update :
    (now car_id : ℕ) (dto : CarUpdate) (t : Tables)
    → code 200 (Fleet.update now car_id dto t) ≡ patching car_id dto t
unfolding Fleet.update
code-update now car_id dto t = elim (Option-cases (find_live car_id t.cars)) [
  | inl x ↦ ground arith
  | inr (car, x) ↦
      rw (x, Fleet.update, patching)
        (code-save now car (actual car dto) t
          ∙ ap (λ o. elim (illegal car.status o) [ none ↦ 200 | some s ↦ 409 ])
              (new_status-actual car dto)
          ∙ patching_of-illegal car.status dto.status)
]

pub status_4xx : (clock : Clock) (r : Request) (t : Tables) → expected clock r t ≤ 422
status_4xx clock (post_car b) t = ground arith
status_4xx clock (get_cars status) t = omega arith
status_4xx clock (patch_car car_id b) t = ground arith
status_4xx clock (remove_car car_id) t = ground arith
status_4xx clock (post_rental b) t = ground arith
status_4xx clock (post_end rental_id) t = ground arith
