-- ===== src/Api/Receiving/Routes.antt =====
-- A request as a client sends it to a route of app/api/cars.py or app/api/rentals.py: the parts are
-- converted to their declared types before the route's function runs.
use drive_now.Base.{String, Option, none, some}
use drive_now.Models.{CarStatus}
use drive_now.Database.{Database}
use drive_now.Messaging.{Publisher}
use drive_now.Action.{World}
use drive_now.Schemas.Bodies.{Pydantic, Object, parse_car, parse_patch, parse_rental}
use drive_now.Api.{Request, Clock, Response, serve, unprocessable}

-- The route that a request has matched, with the texts of its path and its query, and with its body
-- if that is a JSON object.
pub data Raw (V : Pydantic) : Type 0 where
  post_car : Option (Object V) → Raw V
  get_cars : (status : Option String) → Raw V
  patch_car : (car_id : String) → Option (Object V) → Raw V
  remove_car : (car_id : String) → Raw V
  post_rental : Option (Object V) → Raw V
  post_end : (rental_id : String) → Raw V

infixl 5 ◌>>=◌
abbrev ◌>>=◌ : {A B : Type 0} → Option A → (A → Option B) → Option B
none >>= k = none
some a >>= k = k a

module _ (V : Pydantic) where
  -- `Annotated[CarStatus | None, Query()] = None`
  abbrev pub query_status : Option String → Option (Option CarStatus)
  query_status none = some none
  query_status (some s) = elim (V.to_status (V.text s)) [ none ↦ none | some c ↦ some (some c) ]

  -- A request with parts of the declared types, or nothing.
  unfoldable pub receive : Raw V → Option Request
  receive (Raw.post_car body) = do b ← body; c ← parse_car V b; some (Request.post_car c)
  receive (Raw.get_cars status) = do s ← query_status status; some (Request.get_cars s)
  receive (Raw.patch_car car_id body) = do
    i ← V.to_int (V.text car_id)
    b ← body
    c ← parse_patch V b
    some (Request.patch_car i c)
  receive (Raw.remove_car car_id) = do i ← V.to_int (V.text car_id); some (Request.remove_car i)
  receive (Raw.post_rental body) = do b ← body; r ← parse_rental V b; some (Request.post_rental r)
  receive (Raw.post_end rental_id) = do i ← V.to_int (V.text rental_id); some (Request.post_end i)

module _ {D : Database} {P : Publisher} where
  -- A request whose parts cannot be converted never reaches the route.
  abbrev pub respond : Clock → Option Request → World D P → Response × World D P
  respond clock none w = unprocessable w
  respond clock (some r) w = serve clock r w

  unfoldable pub serve_raw : (V : Pydantic) → Clock → Raw V → World D P → Response × World D P
  unfolding receive
  serve_raw V clock raw w = respond clock (receive V raw) w
