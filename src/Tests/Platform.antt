-- ===== src/Tests/Platform.antt =====
-- A request through the middleware, a process from its start to its shutdown, signals to the consumer,
-- and a database that keeps the created tables and indexes.
use drive_now.Base.{
  ℕ, ◌+◌, ◌≡◌, ◌↔◌, refl, String, true, false, Option, none, some, List, [], ◌∷◌, arith,
  if◌then◌else◌, All,
}
use mathlib.Core.List.{reverse}
use text.Mathlib.Text.{◌==◌ as str_eq}
use text.Mathlib.TextPositions.{eq_refl}
use drive_now.Messaging.{Event}
use drive_now.Api.Middleware.{
  response_start, other_message, returned, App, ends, matches, sends, Server, Exchange, Registry,
  record_sample, call,
}
use drive_now.Api.Middleware.Samples.{call-samples}
use drive_now.Process.{Environ, read_settings, Process, Disk, Ended, Service, get_settings}
use drive_now.Process.Running.{
  Use, asks_engine, sets_up_logging, requests, perform_all, started, lifespan,
}
use drive_now.Process.Wiring.{IsWired, perform_all-IsWired}
use drive_now.Process.Shutdown.{IsShutDown, lifespan-closes}
use drive_now.Messaging.Consumer.Signals.{
  State, connecting, consuming, waiting, Happening, goes, loses, delivers, signals, step, run,
}
use drive_now.Messaging.Consumer.Signals
use drive_now.Messaging.Consumer.Signals.Stopping.{is_over, signal-stops, signal-missed}
use drive_now.Models.Tables.{Satisfies}
use drive_now.Migrations.{
  TableDef, Index, Operation, create_table, create_index, drop_table, drop_index, Op, upgrade,
  downgrade, cars_table,
}
use drive_now.Migrations
use drive_now.Migrations.Undo.{IsUndone, undo, upgrade-downgrade}
use drive_now.Migrations.Enforced.{Enforces}
use drive_now.Migrations.Enforced.Meaning.{Fits, Enforces-Satisfies}
use drive_now.Tests.Sample.{fleet}
use drive_now.Tests.Messages.{loopback, added}

-- A server that counts the messages.
abbrev counter : Server
counter = record { State = ℕ; send = λ m n. (returned, n + 1) }

abbrev listing : App
listing =
    matches "/cars" (sends (response_start 200) (λ e. sends other_message (λ e'. ends returned)))

abbrev get_cars : Exchange counter
get_cars = record {
  scope = record { type = "http"; method = "GET"; path = "/cars"; route = none };
  server = 0;
}

abbrev no_samples : Registry
no_samples = record { request_latency = []; operations_total = [] }

call-samples_example :
    (call 10 25 listing get_cars no_samples).2
    ≡ record_sample (record { method = "GET"; template = "/cars" }) 2 15 no_samples
call-samples_example = call-samples 10 25 listing get_cars no_samples

abbrev with_queue : Environ
with_queue = record {
  app_env = none;
  database_url = none;
  rabbitmq_url = none;
  enable_message_queue = some true;
  log_level = none;
  log_file = none;
}

abbrev without_queue : Environ
without_queue = record with_queue { enable_message_queue = none }

abbrev disk : Disk
disk = record { makes_directory = true; opens_file = true }

abbrev a_request : Service loopback → Ended × List Event
a_request s = (Ended.returned, added ∷ [])

abbrev a_day : List (Environ × Use loopback)
a_day =
    (without_queue, sets_up_logging disk)
    ∷ (without_queue, requests a_request)
    ∷ (without_queue, asks_engine)
    ∷ (without_queue, requests a_request)
    ∷ []

perform_all-IsWired_example :
    IsWired
      (read_settings with_queue)
      []
      (perform_all a_day (get_settings with_queue (started {K = loopback} 0)).1)
perform_all-IsWired_example = perform_all-IsWired {K = loopback} with_queue a_day 0

abbrev up : Process loopback
up = record (started {K = loopback} 0) { settings = some (read_settings with_queue) }

up-IsWired : IsWired (read_settings with_queue) [] up
up-IsWired = record {
  settings = refl;
  publisher = tt;
  engine = tt;
  installed = refl;
  open_sessions = refl;
}

lifespan-closes_example :
    let (e, p) = lifespan without_queue disk (λ p. (Ended.returned, perform_all a_day p)) up in
    (e ≡ Ended.returned)
    × IsWired (read_settings with_queue) [] p
    × IsShutDown (read_settings with_queue) p
lifespan-closes_example =
    lifespan-closes (read_settings with_queue) without_queue disk a_day Ended.returned up up-IsWired

abbrev backing_off : State
backing_off = record {
  stage = waiting;
  shutdown = true;
  active = false;
  cancelled = false;
  attempts = 3;
}

abbrev to_work : List Happening
to_work = goes ∷ goes ∷ goes ∷ goes ∷ delivers ∷ []

at_work : (run to_work (Signals.started true)).stage ≡ consuming
unfolding run step
at_work = refl

abbrev four : List Happening
four = goes ∷ delivers ∷ goes ∷ goes ∷ loses ∷ goes ∷ []

signal-stops_example :
    is_over (run four (step (signals true) (run to_work (Signals.started true)))).stage ≡ true
signal-stops_example = signal-stops true to_work four (rw at_work refl) (omega arith)

at_once : (run (goes ∷ []) (Signals.started true)).stage ≡ connecting
unfolding run step
at_once = refl

signal-missed_example :
    (run
      (signals true ∷ goes ∷ goes ∷ goes ∷ delivers ∷ goes ∷ [])
      (run (goes ∷ []) (Signals.started true))).stage
    ≡ consuming
signal-missed_example =
    signal-missed (goes ∷ []) (delivers ∷ goes ∷ []) true at_once (refl, (refl, tt))

-- A schema as the operations that created it, the latest first; only the latest can be dropped.
abbrev drop : (name : String) → List Operation → Option (List Operation)
drop name [] = none
drop name (create_table d ∷ s) = if str_eq d.name name then some s else none
drop name (create_index i ∷ s) = if str_eq i.name name then some s else none
drop name (drop_table n ∷ s) = none
drop name (drop_index n t ∷ s) = none

abbrev execute : Operation → List Operation → Option (List Operation)
execute (create_table d) s = some (create_table d ∷ s)
execute (create_index i) s = some (create_index i ∷ s)
execute (drop_table name) s = drop name s
execute (drop_index name table) s = drop name s

abbrev pub stack : Op
stack = record { Schema = List Operation; execute = execute }

drop_latest :
    (o o' : Operation) (s s' : List Operation)
    → undo o ≡ some o'
    → execute o s ≡ some s'
    → execute o' s' ≡ some s
drop_latest (create_table d) o' s s' u e = ground (arith, eq_refl d.name)
drop_latest (create_index i) o' s s' u e = ground (arith, eq_refl i.name)
drop_latest (drop_table name) o' s s' u e = absurd (ground arith)
drop_latest (drop_index name table) o' s s' u e = absurd (ground arith)

stack-IsUndone : IsUndone stack
stack-IsUndone o o' s s' u e = drop_latest o o' s s' u e

abbrev pub upgraded : List Operation
upgraded = reverse upgrade

upgrade_runs : Migrations.run stack upgrade [] ≡ some upgraded
unfolding upgrade
upgrade_runs = refl

upgrade-downgrade_example : Migrations.run stack downgrade upgraded ≡ some []
upgrade-downgrade_example = upgrade-downgrade stack stack-IsUndone [] upgraded upgrade_runs

Enforces-Satisfies_example : All (Enforces fleet) upgrade ↔ (Satisfies fleet × Fits fleet)
Enforces-Satisfies_example = Enforces-Satisfies fleet
