-- ===== src/Api.antt =====
-- The HTTP surface: app/api/cars.py, app/api/rentals.py and app/api/errors.py. `serve` is a request
-- from the validation of its parts to the response; the session of a request is its own.
pub mod Statuses
pub mod Serving
pub mod Storable
pub mod Contract
pub mod Metrics
pub mod Middleware
pub mod Receiving
use drive_now.Base.{ℕ, String, Bool, Option, none, some, List, [], ◌∷◌, map, ltb, if◌then◌else◌}
use drive_now.Models.{CarStatus, Car, Rental}
use drive_now.Database.{Database}
use drive_now.Messaging.{Publisher}
use drive_now.Action.{Action, Result, ok, raised, Exception, domain, database, World}
use drive_now.Schemas.{CarRead, car_read, RentalRead, rental_read}
use drive_now.Schemas.Validation.{
  CarBody, CarPatch, RentalBody, validate_car, validate_patch, validate_rental,
}
use drive_now.Services.Errors.{
  DomainError, car_not_found, rental_not_found, car_not_available, car_status_transition,
  car_has_active_rental, rental_already_ended, rental_must_start_today, return_before_start,
}
use drive_now.Services.Cars.{add_car, update_car, list_cars, delete_car}
use drive_now.Services.Rentals.{register_rental, end_rental}

-- `_STATUS_MAP`
abbrev pub status_code : DomainError → ℕ
status_code (car_not_found _) = 404
status_code (rental_not_found _) = 404
status_code (car_not_available _ _) = 409
status_code (car_status_transition _ _) = 409
status_code (car_has_active_rental _) = 409
status_code (rental_already_ended _) = 409
status_code rental_must_start_today = 422
status_code return_before_start = 422

pub data Body : Type 0 where
  car : CarRead → Body
  cars : List CarRead → Body
  rental : RentalRead → Body
  empty : Body
  -- the message of a domain error, which its values determine
  detail : DomainError → Body
  internal_server_error : Body
  -- the report of a validation that failed
  validation_error : Body

pub record Response : Type 0 where
  pub status : ℕ
  pub body : Body

abbrev pub response : ℕ → Body → Response
response s b = record { status = s; body = b }

-- `_handle_domain_error` and `_handle_unexpected`
abbrev pub handle : Exception → Response
handle (domain e) = response (status_code e) (detail e)
handle (database e) = response 500 internal_server_error

-- A return becomes the route's response, an exception that of its handler.
abbrev pub reply : {A : Type 0} → ℕ → (A → Body) → Result A → Response
reply status f (ok a) = response status (f a)
reply status f (raised e) = handle e

abbrev pub show_car : Car → Body
show_car c = car (car_read c)

abbrev pub show_rental : Rental → Body
show_rental r = rental (rental_read r)

-- What the clocks show during a request.
pub record Clock : Type 0 where
  pub this_year : ℕ
  pub today : ℕ
  pub instant : ℕ

pub data Request : Type 0 where
  post_car : CarBody → Request
  get_cars : Option CarStatus → Request
  patch_car : (car_id : ℕ) → CarPatch → Request
  remove_car : (car_id : ℕ) → Request
  post_rental : RentalBody → Request
  post_end : (rental_id : ℕ) → Request

module _ {D : Database} {P : Publisher} where
  abbrev pub unprocessable : World D P → Response × World D P
  unprocessable w = (response 422 validation_error, w)

  -- `Path(gt=0)`
  abbrev pub positive : ℕ → (World D P → Response × World D P) → World D P → Response × World D P
  positive i route w = if ltb 0 i then route w else unprocessable w

  -- A body that fails its validation never reaches the route.
  abbrev pub validated :
      {B : Type 0}
      → Option B
      → (B → World D P → Response × World D P)
      → World D P
      → Response × World D P
  validated none route w = unprocessable w
  validated (some dto) route w = route dto w

  -- The call of one method of a service.
  abbrev pub route : {A : Type 0} → ℕ → (A → Body) → Action D P A → World D P → Response × World D P
  route status f method w = (reply status f (method w).0, (method w).1)

  unfoldable pub serve : Clock → Request → World D P → Response × World D P
  serve clock (post_car b) =
      validated (validate_car clock.this_year b) (λ dto. route 201 show_car (add_car dto))
  serve clock (get_cars status) = route 200 (λ cs. cars (map car_read cs)) (list_cars status)
  serve clock (patch_car car_id b) = positive car_id (
      validated (validate_patch clock.this_year b)
        (λ dto. route 200 show_car (update_car car_id dto)))
  serve clock (remove_car car_id) =
      positive car_id (route 204 (λ c. empty) (delete_car clock.instant car_id))
  serve clock (post_rental b) =
      validated (validate_rental b) (λ dto. route 201 show_rental (register_rental clock.today dto))
  serve clock (post_end rental_id) =
      positive rental_id (route 200 show_rental (end_rental clock.today rental_id))

  -- The responses to requests that are served one after the other.
  unfoldable pub serve_all : List (Clock × Request) → World D P → List Response × World D P
  unfolding serve
  serve_all [] w = ([], w)
  serve_all ((clock, r) ∷ rest) w =
      let (responses, w') = serve_all rest (serve clock r w).1 in
      ((serve clock r w).0 ∷ responses, w')
