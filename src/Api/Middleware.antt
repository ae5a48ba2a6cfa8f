-- ===== src/Api/Middleware.antt =====
-- `MetricsMiddleware` of app/api/middleware.py, around an ASGI application. Parameters are the
-- application, the server behind `send` and what the clock shows. Of the two labels, the operation is
-- kept as its two parts and the outcome as the digit in front of its "xx".
pub mod Samples
use drive_now.Base.{
  ℕ, ◌/◌, String, Bool, true, false, not, ◌&&◌, ◌-◌, Option, none, some, List, [], ◌∷◌,
  if◌then◌else◌, is_among,
}
use text.Mathlib.Text.{◌==◌ as str_eq}

-- `_SKIP_PATHS`
abbrev pub skip_paths : List String
skip_paths =
    "/metrics" ∷ "/health" ∷ "/docs" ∷ "/docs/oauth2-redirect" ∷ "/openapi.json" ∷ "/redoc" ∷ []

-- The scope of a connection; the router puts the matched route into it, whose template it keeps.
pub record Scope : Type 0 where
  pub type : String
  pub method : String
  pub path : String
  pub route : Option String

-- The messages of an application to the server.
pub data Message : Type 0 where
  response_start : (status : ℕ) → Message
  other_message : Message

-- How an awaited call ends: `cancelled` is an exception that is no `Exception`.
pub data Ending : Type 0 where
  returned raised cancelled : Ending

-- A run of an ASGI application: it matches a route, sends a message and goes on by how the send has
-- ended, or ends.
pub data App : Type 0 where
  ends : Ending → App
  matches : (template : String) → App → App
  sends : Message → (Ending → App) → App

-- The server, with what `send` does.
pub record Server : Type 1 where
  pub State : Type 0
  pub send : Message → State → Ending × State

-- What an application changes: the scope and the server.
pub record Exchange (V : Server) : Type 0 where
  pub scope : Scope
  pub server : V.State

-- `await app(scope, receive, send)`, with `send` and the assignment to the scope on a state `S`.
abbrev pub run : {S : Type 0} → (Message → S → Ending × S) → (String → S → S) → App → S → Ending × S
run send route (ends e) s = (e, s)
run send route (matches template app) s = run send route app (route template s)
run send route (sends message k) s = let (e, s') = send message s in run send route (k e) s'

-- `_operation`: a template that is missing or empty is "unmatched".
pub record Operation : Type 0 where
  pub method : String
  pub template : String

abbrev pub or_unmatched : Option String → String
or_unmatched none = "unmatched"
or_unmatched (some template) = if str_eq template "" then "unmatched" else template

abbrev pub operation : Scope → Operation
operation scope = record { method = scope.method; template = or_unmatched scope.route }

-- `REQUEST_LATENCY` and `OPERATIONS_TOTAL`: the samples of each, the latest first.
pub record Registry : Type 0 where
  pub request_latency : List (Operation × ℕ)
  pub operations_total : List (Operation × ℕ)

-- `_record`
unfoldable pub record_sample : Operation → (outcome elapsed : ℕ) → Registry → Registry
record_sample op outcome elapsed m = record {
  request_latency = (op, elapsed) ∷ m.request_latency;
  operations_total = (op, outcome) ∷ m.operations_total;
}

-- The assignment of `send_wrapper` to `status`.
abbrev pub status_after : Message → ℕ → ℕ
status_after (response_start status) old = status
status_after other_message old = old

abbrev pub is_measured : Scope → Bool
is_measured scope = str_eq scope.type "http" && not (is_among scope.path skip_paths)

module _ {V : Server} where
  abbrev pub direct_send : Message → Exchange V → Ending × Exchange V
  direct_send message x =
      let (e, server) = V.send message x.server in (e, record x { server = server })

  abbrev pub set_route : String → Exchange V → Exchange V
  set_route template x = record x { scope = record x.scope { route = some template } }

  -- The application without the middleware.
  abbrev pub plain : App → Exchange V → Ending × Exchange V
  plain app x = run direct_send set_route app x

  abbrev pub send_wrapper : Message → ℕ × Exchange V → Ending × (ℕ × Exchange V)
  send_wrapper message (status, x) =
      let (e, x') = direct_send message x in (e, (status_after message status, x'))

  abbrev pub wrapped_route : String → ℕ × Exchange V → ℕ × Exchange V
  wrapped_route template (status, x) = (status, set_route template x)

  -- The `except` and the `else` around the application.
  abbrev pub after_app :
      (elapsed : ℕ) → Ending × (ℕ × Exchange V) → Registry → Ending × Exchange V × Registry
  after_app elapsed (returned, (status, x)) m =
      (returned, x, record_sample (operation x.scope) (status / 100) elapsed m)
  after_app elapsed (raised, (status, x)) m =
      (raised, x, record_sample (operation x.scope) 5 elapsed m)
  after_app elapsed (cancelled, (status, x)) m = (cancelled, x, m)

  abbrev pub unmeasured : Ending × Exchange V → Registry → Ending × Exchange V × Registry
  unmeasured (e, x) m = (e, x, m)

  -- `MetricsMiddleware.__call__`, with what `time.perf_counter()` shows at the start and at the end.
  unfoldable pub call :
      (start stop : ℕ) → App → Exchange V → Registry → Ending × Exchange V × Registry
  call start stop app x m =
      if is_measured x.scope
      then after_app (stop - start) (run send_wrapper wrapped_route app (500, x)) m
      else unmeasured (plain app x) m

-- A call of the middleware: the clock, the application's run, and the exchange that it starts with.
pub record Called (V : Server) : Type 0 where
  pub start : ℕ
  pub stop : ℕ
  pub app : App
  pub exchange : Exchange V

-- Calls that end one after the other: the registry that they leave.
unfoldable pub call_all : {V : Server} → List (Called V) → Registry → Registry
unfolding call
call_all [] m = m
call_all (c ∷ rest) m = call_all rest (call c.start c.stop c.app c.exchange m).2
