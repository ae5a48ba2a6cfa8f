-- ===== src/Api/Contract.antt =====
-- What the routes of app/api/cars.py and app/api/rentals.py declare to return, and what the handlers of
-- app/api/errors.py return.
use drive_now.Base.{ℕ, ◌≡◌, ◌⊎◌, refl, inl, inr, List, Option, none, some, ltb, Bool-cases, map}
use drive_now.Database.{Database}
use drive_now.Messaging.{Publisher}
use drive_now.Action.{Result, ok, raised, Exception, World}
use drive_now.Schemas.{CarRead, RentalRead, car_read, rental_read}
use drive_now.Schemas.Validation.{validate_car, validate_patch, validate_rental}
use drive_now.Services.Cars.{add_car, update_car, list_cars, delete_car}
use drive_now.Services.Rentals.{register_rental, end_rental}
use drive_now.Api.{
  Body, car, cars, rental, empty, validation_error, Response, response, handle, reply, Clock,
  Request, post_car, get_cars, patch_car, remove_car, post_rental, post_end, show_car, show_rental,
  positive, validated, route, serve,
}

-- The return type of a route.
abbrev pub Returned : Request → Body → Type 0
Returned (post_car b) body = (c : CarRead) × (body ≡ car c)
Returned (get_cars status) body = (cs : List CarRead) × (body ≡ cars cs)
Returned (patch_car car_id b) body = (c : CarRead) × (body ≡ car c)
Returned (remove_car car_id) body = body ≡ empty
Returned (post_rental b) body = (r : RentalRead) × (body ≡ rental r)
Returned (post_end rental_id) body = (r : RentalRead) × (body ≡ rental r)

-- Its `status_code`, 200 where none is given.
abbrev pub declared_status : Request → ℕ
declared_status (post_car b) = 201
declared_status (get_cars status) = 200
declared_status (patch_car car_id b) = 200
declared_status (remove_car car_id) = 204
declared_status (post_rental b) = 201
declared_status (post_end rental_id) = 200

-- A response with the declared status and type, that of a handler, or the report of a validation.
abbrev pub Conforms : Request → Response → Type 0
Conforms r x =
    ((x.status ≡ declared_status r) × Returned r x.body)
    ⊎ (((e : Exception) × (x ≡ handle e)) ⊎ (x ≡ response 422 validation_error))

reply-Conforms :
    {A : Type 0} (r : Request) (f : A → Body) (result : Result A)
    → ((a : A) → Returned r (f a))
    → Conforms r (reply (declared_status r) f result)
reply-Conforms r f (ok a) h = inl (refl, h a)
reply-Conforms r f (raised e) h = inr (inl (e, refl))

module _ {D : Database} {P : Publisher} where
  positive-Conforms :
      (r : Request) (i : ℕ) (f : World D P → Response × World D P) (w : World D P)
      → Conforms r (f w).0
      → Conforms r (positive i f w).0
  positive-Conforms r i f w h = elim (Bool-cases (ltb 0 i)) [
    | inl x ↦ rw x h
    | inr x ↦ rw x (inr (inr refl))
  ]

  validated-Conforms :
      {B : Type 0} (r : Request) (o : Option B) (f : B → World D P → Response × World D P)
      (w : World D P)
      → ((dto : B) → Conforms r (f dto w).0)
      → Conforms r (validated o f w).0
  validated-Conforms r none f w h = inr (inr refl)
  validated-Conforms r (some dto) f w h = h dto

  -- The response to each request, whatever the database does, has the status and the body that its
  -- route declares, or it is the response of the handler of some exception, or the 422 of a
  -- validation that failed.
  pub serve-Conforms :
      (clock : Clock) (r : Request) (w : World D P) → Conforms r (serve clock r w).0
  unfolding serve
  serve-Conforms clock (post_car b) w =
      validated-Conforms (post_car b) (validate_car clock.this_year b)
        (λ dto. route 201 show_car (add_car dto)) w
        (λ dto. reply-Conforms (post_car b) show_car (add_car dto w).0 (λ c. (car_read c, refl)))
  serve-Conforms clock (get_cars status) w =
      reply-Conforms (get_cars status) (λ cs. cars (map car_read cs)) (list_cars status w).0
        (λ cs. (map car_read cs, refl))
  serve-Conforms clock (patch_car car_id b) w =
      positive-Conforms (patch_car car_id b) car_id
        (validated (validate_patch clock.this_year b)
          (λ dto. route 200 show_car (update_car car_id dto)))
        w
        (validated-Conforms (patch_car car_id b) (validate_patch clock.this_year b)
          (λ dto. route 200 show_car (update_car car_id dto)) w
          (λ dto.
            reply-Conforms (patch_car car_id b) show_car (update_car car_id dto w).0
              (λ c. (car_read c, refl))))
  serve-Conforms clock (remove_car car_id) w =
      positive-Conforms (remove_car car_id) car_id
        (route 204 (λ c. empty) (delete_car clock.instant car_id)) w
        (reply-Conforms (remove_car car_id) (λ c. empty) (delete_car clock.instant car_id w).0
          (λ c. refl))
  serve-Conforms clock (post_rental b) w =
      validated-Conforms (post_rental b) (validate_rental b)
        (λ dto. route 201 show_rental (register_rental clock.today dto)) w
        (λ dto.
          reply-Conforms (post_rental b) show_rental (register_rental clock.today dto w).0
            (λ r. (rental_read r, refl)))
  serve-Conforms clock (post_end rental_id) w =
      positive-Conforms (post_end rental_id) rental_id
        (route 200 show_rental (end_rental clock.today rental_id)) w
        (reply-Conforms (post_end rental_id) show_rental (end_rental clock.today rental_id w).0
          (λ r. (rental_read r, refl)))
