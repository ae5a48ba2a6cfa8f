-- ===== src/Tests/Messages.antt =====
-- A broker whose old channels are stale, and deliveries to the consumer.
use drive_now.Base.{
  ℕ, ◌+◌, ◌≡◌, ◌↔◌, refl, Bool, true, false, none, some, List, [], ◌∷◌, ◌++◌, arith, if◌then◌else◌,
}
use mathlib.Core.List.{reverse}
use drive_now.Messaging.{Event, int, PublishError, amqp_connection_error, stream_lost, sent, raised}
use drive_now.Messaging.Rabbit.{
  Pika, Link, Attempt, done, failed, Envelope, publish, publish_once, ensure_channel, is_retryable,
  envelope,
}
use drive_now.Messaging.Rabbit.Recovery.{publish-recovers}
use drive_now.Messaging.Rabbit.Unreachable.{IsUnreachable, publish-twice}
use drive_now.Messaging.Consumer.{
  Decoded, json, value_error, recursion_error, Json, Members, object, other, end, Received, event,
  parse_event, consume, Settlement,
}
use drive_now.Messaging.Consumer.Deliveries.{
  Carries, parse_event-event, envelope_json, AllSettle, Leaves, consume-settles,
}

-- A channel is `true` if it is fresh.
abbrev pub loopback : Pika
loopback = record {
  Network = ℕ;
  Connection = Unit {0};
  Channel = Bool;
  Bytes = Envelope;
  uuid4 = λ n. "c0ffee";
  utcnow = λ n. "2026-01-01T00:00:00+00:00";
  dumps = λ v. some v;
  connect = λ n. (done tt, n + 1);
  open_channel = λ c n. (done true, n);
  exchange_declare = λ ch x t d n. (done tt, n);
  confirm_delivery = λ ch n. (done tt, n);
  basic_publish = λ ch x key id m body n. (if ch then done tt else failed stream_lost, n);
  is_open = λ ch n. true;
  close = λ c n. (done tt, n);
}

abbrev pub added : Event
added = record { event_type = "car.added"; payload = ("car_id", int 1) ∷ [] }

abbrev stale : Link loopback
stale = record { conn = some tt; channel = some false; network = 0; log = [] }

stale_fails :
    (publish_once {K = loopback} "car.added" "c0ffee" (envelope loopback added 0) stale).0
    ≡ failed stream_lost
unfolding publish_once ensure_channel
stale_fails = refl

lost :
    (r : Attempt (Unit {0})) (e : PublishError)
    → r ≡ failed stream_lost
    → r ≡ failed e
    → is_retryable e ≡ true
lost r e f g = ground arith

publish-recovers_example : (publish {K = loopback} added stale).0 ≡ sent
publish-recovers_example =
    publish-recovers {K = loopback} added stale (envelope loopback added 0) refl
      (λ e h. lost _ e stale_fails h)
      (λ n. (tt, true, n + 1, n + 1, n + 1, n + 1, n + 1, refl, refl, refl, refl, refl))

-- No connect is answered, and the network counts them.
abbrev down : Pika
down = record loopback { connect = λ n. (failed amqp_connection_error, n + 1) }

down-IsUnreachable : IsUnreachable down (λ n. n)
down-IsUnreachable = record {
  refuses = λ n. (amqp_connection_error, n + 1, refl, refl, refl);
  closes = λ c n. refl;
}

publish-twice_example :
    (e : PublishError) × (k' : Link down) × (publish {K = down} added
        (record { conn = none; channel = none; network = 0; log = [] })
      ≡ (raised e, k'))
    × (k'.network ≡ 2)
publish-twice_example =
    publish-twice down-IsUnreachable added
      (record { conn = none; channel = none; network = 0; log = [] }) (envelope loopback added 0)
      refl refl

abbrev started : Received
started = record { id = "1"; event_type = "rental.started"; occurred_at = "now"; payload = end }

abbrev started_json : Json
started_json =
    envelope_json
      (record { id = "1"; event_type = "rental.started"; occurred_at = "now"; payload = [] }) end

parse_event-event_example :
    (parse_event (json started_json) ≡ event started)
    ↔ ((ms : Members) × (json started_json ≡ json (object ms)) × Carries ms started)
parse_event-event_example = parse_event-event (json started_json) started

abbrev deliveries : List (ℕ × Decoded)
deliveries =
    (1, json started_json)
    ∷ (2, value_error)
    ∷ (3, json other)
    ∷ (4, recursion_error)
    ∷ (5, json started_json)
    ∷ []

consume-settles_example :
    let (h, c') = consume deliveries (record { log = []; settled = [] }) in
    (before : List (ℕ × Decoded)) × (rest : List (ℕ × Decoded)) × (xs : List Settlement)
    × (deliveries ≡ before ++ rest)
    × (c'.settled ≡ reverse xs ++ [])
    × AllSettle before xs
    × Leaves h rest
consume-settles_example = consume-settles deliveries (record { log = []; settled = [] })
