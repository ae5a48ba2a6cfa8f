-- ===== src/Api/Middleware/Samples.antt =====
-- What the middleware changes of an exchange, and the samples of a call.
use drive_now.Base.{
  ℕ, ◌+◌, ◌-◌, ◌/◌, ◌≡◌, ◌&&◌, refl, inl, inr, Bool, true, false, List, [], ◌∷◌, arith,
  if◌then◌else◌, Bool-cases, length,
}
use drive_now.Api.Middleware.{
  Ending, returned, raised, cancelled, App, ends, matches, sends, Server, Exchange, run, operation,
  Registry, record_sample, direct_send, set_route, plain, status_after, is_measured, send_wrapper,
  wrapped_route, after_app, call, Called, call_all,
}

-- The status of the last start of a response that an application sends to a server, and `status` if
-- it sends none.
abbrev pub last_status : {V : Server} → App → Exchange V → (status : ℕ) → ℕ
last_status (ends e) x status = status
last_status (matches template app) x status = last_status app (set_route template x) status
last_status (sends message k) x status =
    let (e, x') = direct_send message x in last_status (k e) x' (status_after message status)

-- The run behind the wrapped `send` is the run without it, with the last status beside it.
run-wrapped :
    {V : Server} (app : App) (status : ℕ) (x : Exchange V)
    → run send_wrapper wrapped_route app (status, x)
      ≡ ((plain app x).0, (last_status app x status, (plain app x).1))
run-wrapped (ends e) status x = refl
run-wrapped (matches template app) status x = run-wrapped app status (set_route template x)
run-wrapped (sends message k) status x =
    let (e, x') = direct_send message x in run-wrapped (k e) (status_after message status) x'

after_app-exchange :
    {V : Server} (elapsed : ℕ) (r : Ending × (ℕ × Exchange V)) (m : Registry)
    → ((after_app elapsed r m).0 ≡ r.0) × ((after_app elapsed r m).1 ≡ r.1.1)
after_app-exchange elapsed (returned, (status, x)) m = (refl, refl)
after_app-exchange elapsed (raised, (status, x)) m = (refl, refl)
after_app-exchange elapsed (cancelled, (status, x)) m = (refl, refl)

-- Whatever the application and the server do, a call of the middleware ends as the application does
-- without it, with the same scope and the same state of the server.
pub call-plain :
    {V : Server} (start stop : ℕ) (app : App) (x : Exchange V) (m : Registry)
    → ((call start stop app x m).0 ≡ (plain app x).0)
      × ((call start stop app x m).1 ≡ (plain app x).1)
unfolding call
call-plain start stop app x m = elim (Bool-cases (is_measured x.scope)) [
  | inl h ↦ rw h (
      rw (run-wrapped app 500 x) (
        after_app-exchange (stop - start)
          ((plain app x).0, (last_status app x 500, (plain app x).1)) m))
  | inr h ↦ rw h (refl, refl)
]

-- The class of a call that is not cancelled, by its end and the last status that it sent.
abbrev pub outcome : Ending → (status : ℕ) → ℕ
outcome returned status = status / 100
outcome raised status = 5
outcome cancelled status = 5

abbrev pub is_sampled : Ending → Bool
is_sampled returned = true
is_sampled raised = true
is_sampled cancelled = false

after_app-samples :
    {V : Server} (elapsed : ℕ) (e : Ending) (status : ℕ) (x : Exchange V) (m : Registry)
    → (after_app elapsed (e, (status, x)) m).2
      ≡ (if is_sampled e then record_sample (operation x.scope) (outcome e status) elapsed m else m)
after_app-samples elapsed returned status x m = refl
after_app-samples elapsed raised status x m = refl
after_app-samples elapsed cancelled status x m = refl

-- A call leaves one sample in both metrics if it is an HTTP request to a path that is not skipped
-- and it returns or raises an `Exception`, and no sample else. The sample names the route that the
-- application has matched; its class is 5xx if the call raises, and else that of the last status
-- that the application has sent, 500 if it has sent none.
pub call-samples :
    {V : Server} (start stop : ℕ) (app : App) (x : Exchange V) (m : Registry)
    → let (e, x') = plain app x in
      (call start stop app x m).2 ≡ (
        if is_measured x.scope && is_sampled e
        then record_sample (operation x'.scope) (outcome e (last_status app x 500)) (stop - start) m
        else m)
unfolding call
call-samples start stop app x m = elim (Bool-cases (is_measured x.scope)) [
  | inl h ↦ rw h (
      rw (run-wrapped app 500 x) (
        after_app-samples (stop - start) (plain app x).0 (last_status app x 500) (plain app x).1 m))
  | inr h ↦ rw h refl
]

-- Whether a call leaves a sample.
abbrev pub leaves_sample : {V : Server} → Called V → Bool
leaves_sample c = is_measured c.exchange.scope && is_sampled (plain c.app c.exchange).0

abbrev weight : {V : Server} → Called V → ℕ
weight c = if leaves_sample c then 1 else 0

abbrev pub samples : {V : Server} → List (Called V) → ℕ
samples [] = 0
samples (c ∷ rest) = weight c + samples rest

call-length :
    {V : Server} (c : Called V) (m : Registry)
    → let m' = (call c.start c.stop c.app c.exchange m).2 in
      (length m'.request_latency ≡ weight c + length m.request_latency)
      × (length m'.operations_total ≡ weight c + length m.operations_total)
unfolding record_sample
call-length c m = elim (Bool-cases (leaves_sample c)) [
  | inl h ↦ rw (call-samples c.start c.stop c.app c.exchange m) (rw h (omega arith, omega arith))
  | inr h ↦ rw (call-samples c.start c.stop c.app c.exchange m) (rw h (omega arith, omega arith))
]

-- Counted.
pub call_all-counted :
    {V : Server} (cs : List (Called V)) (m : Registry)
    → (length (call_all cs m).request_latency ≡ samples cs + length m.request_latency)
      × (length (call_all cs m).operations_total ≡ samples cs + length m.operations_total)
unfolding call_all
call_all-counted [] m = (omega arith, omega arith)
call_all-counted (c ∷ rest) m =
    let later = call_all-counted rest (call c.start c.stop c.app c.exchange m).2 in
    let now = call-length c m in (omega arith, omega arith)
