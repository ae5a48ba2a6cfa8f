-- ===== src/Application.antt =====
-- The application that `create_app` of app/main.py assembles: the routers with their endpoints, the
-- handlers of exceptions, and the middleware around them. FastAPI is a parameter.
pub mod Measured
pub mod Answers
pub mod Serving
use Prim.Native.String.{◌++◌ as join}
use drive_now.Base.{ℕ, ◌/◌, String, Bool, Option, none, some, List, [], ◌∷◌, ◌++◌, if◌then◌else◌}
use drive_now.Database.{Database}
use drive_now.Messaging.{Publisher}
use drive_now.Action.{Result, ok, raised, World}
use drive_now.Schemas.Bodies.{Pydantic}
use drive_now.Api.{
  Body, car, cars, rental, empty, detail, internal_server_error, validation_error, Response, Clock,
  handle,
}
use drive_now.Api.Receiving.Routes.{
  Raw, post_car, get_cars, patch_car, remove_car, post_rental, post_end, serve_raw,
}
use drive_now.Api.Metrics
use drive_now.Api.Metrics.{Gauges}
use drive_now.Api.Middleware.{Ending, App, Server, Exchange, Operation, Registry, call}

-- A decorated function of a router.
pub record Route : Type 0 where
  pub method : String
  pub prefix : String
  pub path : String

abbrev pub route_at : (method prefix path : String) → Route
route_at method prefix path = record { method = method; prefix = prefix; path = path }

abbrev pub template : Route → String
template r = join r.prefix r.path

-- The four routers, in the order in which they are included.
abbrev pub health_router : List Route
health_router = route_at "GET" "" "/health" ∷ []

abbrev pub cars_router : List Route
cars_router =
    route_at "POST" "/cars" ""
    ∷ route_at "GET" "/cars" ""
    ∷ route_at "PATCH" "/cars" "/{car_id}"
    ∷ route_at "DELETE" "/cars" "/{car_id}"
    ∷ []

abbrev pub rentals_router : List Route
rentals_router = route_at "POST" "/rentals" "" ∷ route_at "POST" "/rentals" "/{rental_id}/end" ∷ []

abbrev pub metrics_router : List Route
metrics_router = route_at "GET" "" "/metrics" ∷ []

abbrev pub routes : List Route
routes = health_router ++ (cars_router ++ (rentals_router ++ metrics_router))

-- What a request asks for, once a route has matched it.
pub data Endpoint (V : Pydantic) : Type 0 where
  health metrics : Endpoint V
  api : Raw V → Endpoint V

abbrev pub route_of : {V : Pydantic} → Endpoint V → Route
route_of health = route_at "GET" "" "/health"
route_of metrics = route_at "GET" "" "/metrics"
route_of (api (post_car body)) = route_at "POST" "/cars" ""
route_of (api (get_cars status)) = route_at "GET" "/cars" ""
route_of (api (patch_car car_id body)) = route_at "PATCH" "/cars" "/{car_id}"
route_of (api (remove_car car_id)) = route_at "DELETE" "/cars" "/{car_id}"
route_of (api (post_rental body)) = route_at "POST" "/rentals" ""
route_of (api (post_end rental_id)) = route_at "POST" "/rentals" "/{rental_id}/end"

-- The path of the request, with the texts that stand for the parameters of the template.
abbrev pub url : {V : Pydantic} → Endpoint V → String
url health = "/health"
url metrics = "/metrics"
url (api (post_car body)) = "/cars"
url (api (get_cars status)) = "/cars"
url (api (patch_car car_id body)) = join "/cars/" car_id
url (api (remove_car car_id)) = join "/cars/" car_id
url (api (post_rental body)) = "/rentals"
url (api (post_end rental_id)) = join "/rentals/" (join rental_id "/end")

-- What reaches the middleware from inside: a response, or an exception. A `DomainError` has its
-- handler inside and becomes a response; the handler of `Exception` stands outside the middleware.
pub data Reaction : Type 0 where
  responds : (status : ℕ) → Reaction
  fails : Reaction

abbrev pub reaction_to : Response → Reaction
reaction_to r = elim r.body [
  | car c ↦ responds r.status
  | cars cs ↦ responds r.status
  | rental b ↦ responds r.status
  | empty ↦ responds r.status
  | detail e ↦ responds r.status
  | internal_server_error ↦ fails
  | validation_error ↦ responds r.status
]

-- The state of the application: the world of the services, the samples of the middleware, and the
-- gauges once they are set.
pub record AppState (D : Database) (P : Publisher) : Type 0 where
  pub world : World D P
  pub registry : Registry
  pub gauges : Option Gauges

module _ {D : Database} {P : Publisher} where
  abbrev pub scraped : Result Gauges × World D P → AppState D P → Reaction × AppState D P
  scraped (ok g, w) a = (responds 200, record a { world = w; gauges = some g })
  scraped (raised e, w) a = (reaction_to (handle e), record a { world = w })

  abbrev pub served : Response × World D P → AppState D P → Reaction × AppState D P
  served (r, w) a = (reaction_to r, record a { world = w })

module _ {V : Pydantic} {D : Database} {P : Publisher} where
  -- The endpoint's function.
  unfoldable pub run_endpoint : Clock → Endpoint V → AppState D P → Reaction × AppState D P
  run_endpoint clock health a = (responds 200, a)
  run_endpoint clock metrics a = scraped (Metrics.metrics a.world) a
  run_endpoint clock (api raw) a = served (serve_raw V clock raw a.world) a

-- The ASGI application that FastAPI makes of a route that has matched and what its endpoint does.
abbrev pub Framework : Type 0
Framework = (template : String) → Reaction → App

-- A request, with what the clocks show.
pub record Connection (V : Pydantic) : Type 0 where
  pub endpoint : Endpoint V
  pub clock : Clock
  pub start : ℕ
  pub stop : ℕ

abbrev pub opened : {V : Pydantic} {S : Server} → Endpoint V → S.State → Exchange S
opened e s = record {
  scope = record { type = "http"; method = (route_of e).method; path = url e; route = none };
  server = s;
}

module _ (F : Framework) (S : Server) {V : Pydantic} {D : Database} {P : Publisher} where
  abbrev pub measured :
      Connection V → S.State → Reaction × AppState D P → Ending × (S.State × AppState D P)
  measured c s (o, a) =
      let (e, x, m) =
        call c.start c.stop (F (template (route_of c.endpoint)) o) (opened {S = S} c.endpoint s)
          a.registry in
      (e, (x.server, record a { registry = m }))

  -- A request through the middleware and the endpoint.
  unfoldable pub connect : Connection V → S.State → AppState D P → Ending × (S.State × AppState D P)
  unfolding run_endpoint
  connect c s a = measured c s (run_endpoint c.clock c.endpoint a)

  -- Requests one after the other.
  unfoldable pub connect_all :
      List (Connection V) → S.State → AppState D P → List Ending × (S.State × AppState D P)
  unfolding connect
  connect_all [] s a = ([], (s, a))
  connect_all (c ∷ cs) s a =
      let (e, (s', a')) = connect c s a in let (es, end) = connect_all cs s' a' in (e ∷ es, end)
