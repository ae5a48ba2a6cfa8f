-- ===== src/Tests/Client.antt =====
-- Requests as they are sent, to the services and to the application: a pydantic that reads numbers in
-- the unary system, a FastAPI and a server.
use drive_now.Base.{
  ℕ, zero, suc, ◌+◌, ◌≡◌, refl, ap, String, Bool, true, false, Option, none, some, List, [], ◌∷◌,
  if◌then◌else◌, All, length, count,
}
use text.Mathlib.Text.{◌==◌ as str_eq}
use drive_now.Models.{CarStatus, available, in_use, under_maintenance, value as status_text}
use drive_now.Database.Reference.{in_memory, in_memory-IsDatabase, in_memory-IsUp}
use drive_now.Schemas.Validation.{unset, null, value}
use drive_now.Schemas.Bodies.{parse_car, Pydantic, Object}
use drive_now.History.{IsSettled}
use drive_now.Api.{Request, Clock, response, validation_error}
use drive_now.Api.Receiving.Routes.{post_car, get_cars, receive, serve_raw}
use drive_now.Api.Receiving.Parts.{Client, IsRead, dump, receive-dump, serve_raw-undeclared}
use drive_now.Api.Middleware.{
  response_start, other_message, returned, raised, ends, matches, sends, Server, record_sample,
}
use drive_now.Application.{
  Endpoint, health, metrics, api, route_of, responds, fails, AppState, run_endpoint, Framework,
  Connection, connect, connect_all,
}
use drive_now.Application.Measured.{IsSending, IsFramework, named, class_of, ended, connect-sample}
use drive_now.Application.Answers.{IsStorable}
use drive_now.Application.Serving.{IsBounded, for_api, connect_all-Bounded}
use drive_now.Tests.Sample.{fleet, fleet-IsConsistent, between-IsClean, world, recorder}

data Input : Type 0 where
  nothing : Input
  num : ℕ → Input
  str : String → Input

abbrev strokes : String → ℕ
strokes String.[] = zero
strokes (String.◌∷◌ c s) = suc (strokes s)

abbrev tally : ℕ → String
tally zero = ""
tally (suc n) = String.◌∷◌ "i" (tally n)

abbrev as_int : Input → Option ℕ
as_int nothing = none
as_int (num n) = some n
as_int (str s) = some (strokes s)

abbrev as_str : Input → Option String
as_str nothing = none
as_str (num n) = none
as_str (str s) = some s

abbrev as_date : Input → Option ℕ
as_date nothing = none
as_date (num n) = some n
as_date (str s) = none

abbrev as_status : Input → Option CarStatus
as_status nothing = none
as_status (num n) = none
as_status (str s) =
    if str_eq s "available"
    then some available
    else if str_eq s "in_use"
    then some in_use
    else if str_eq s "under_maintenance"
    then some under_maintenance
    else none

abbrev is_nothing : Input → Bool
is_nothing nothing = true
is_nothing (num n) = false
is_nothing (str s) = false

abbrev reader : Pydantic
reader = record {
  Input = Input;
  text = str;
  is_null = is_nothing;
  to_int = as_int;
  to_str = as_str;
  to_date = as_date;
  to_status = as_status;
}

abbrev writer : Client reader
writer = record { null = nothing; number = num; string = str; day = num; print = tally }

strokes-tally : (n : ℕ) → strokes (tally n) ≡ n
strokes-tally zero = refl
strokes-tally (suc n) = ap suc (strokes-tally n)

as_status-text : (s : CarStatus) → as_status (str (status_text s)) ≡ some s
unfolding status_text
as_status-text available = refl
as_status-text in_use = refl
as_status-text under_maintenance = refl

writer-IsRead : IsRead reader writer
writer-IsRead = record {
  null_null = refl;
  null_number = λ n. refl;
  null_string = λ s. refl;
  int_number = λ n. refl;
  int_text = λ n. ap some (strokes-tally n);
  str_string = λ s. refl;
  date_day = λ n. refl;
  status_string = as_status-text;
  status_query = as_status-text;
}

abbrev clear_model : Request
clear_model = Request.patch_car 2 (record { model = null; year = unset; status = value available })

receive-dump_example : receive reader (dump writer clear_model) ≡ some clear_model
receive-dump_example = receive-dump writer writer-IsRead clear_model

-- A new car that is sent with a status.
abbrev in_use_at_once : Object reader
in_use_at_once = ("model", str "Leaf") ∷ ("year", num 2020) ∷ ("status", str "in_use") ∷ []

abbrev clock : Clock
clock = record { this_year = 2026; today = 100; instant = 21 }

serve_raw-undeclared_example :
    serve_raw reader clock (post_car (some in_use_at_once)) world
    ≡ (response 422 validation_error, world)
serve_raw-undeclared_example =
    serve_raw-undeclared clock (post_car (some in_use_at_once)) in_use_at_once "status"
      (str "in_use") world refl refl refl

abbrev fastapi : Framework
fastapi t (responds status) =
    matches t (sends (response_start status) (λ e. sends other_message (λ e'. ends returned)))
fastapi t fails = matches t (ends raised)

fastapi-IsFramework : IsFramework fastapi
fastapi-IsFramework = record {
  sends_response = λ S t status x sending. (refl, refl, refl);
  raises_through = λ S t x sending. (refl, refl);
}

abbrev counter : Server
counter = record { State = ℕ; send = λ m n. (returned, n + 1) }

counter-IsSending : IsSending counter
counter-IsSending m n = refl

abbrev idle : AppState in_memory recorder
idle = record {
  world = world;
  registry = record { request_latency = []; operations_total = [] };
  gauges = none;
}

abbrev asked : Endpoint reader → Connection reader
asked e = record { endpoint = e; clock = clock; start = 10; stop = 25 }

abbrev an_hour : List (Connection reader)
an_hour =
    asked health
    ∷ asked (api (get_cars (some "in_use")))
    ∷ asked (api (post_car (some in_use_at_once)))
    ∷ asked metrics
    ∷ []

abbrev listing : Connection reader
listing = asked (api (get_cars (some "in_use")))

connect-sample_example :
    let (o, a') = run_endpoint clock listing.endpoint idle in
    let (e, (_, b)) = connect fastapi counter listing 0 idle in
    (e ≡ ended o)
    × (b.world ≡ a'.world)
    × (b.gauges ≡ a'.gauges)
    × (b.registry ≡ record_sample (named (route_of listing.endpoint)) (class_of o) 15 a'.registry)
connect-sample_example = connect-sample fastapi-IsFramework counter counter-IsSending listing 0 idle

an_hour-IsStorable : All (λ (c : Connection reader). IsStorable c.endpoint) an_hour
unfolding receive parse_car
an_hour-IsStorable = (tt, (refl, (refl, (tt, tt))))

connect_all-Bounded_example :
    let (es, (_, b)) = connect_all fastapi counter an_hour 0 idle in
    All (λ e. e ≡ returned) es
    × IsSettled b.world
    × All IsBounded b.registry.operations_total
    × (length b.registry.operations_total ≡ count for_api an_hour + 0)
connect_all-Bounded_example =
    connect_all-Bounded fastapi-IsFramework counter counter-IsSending in_memory-IsDatabase
      in_memory-IsUp an_hour 0 idle an_hour-IsStorable (fleet, between-IsClean, fleet-IsConsistent)
      tt
