-- ===== src/Tests/Delivery.antt =====
-- A broker in memory, and two events on their way to the consumer's log.
use drive_now.Base.{
  ◌≡◌, refl, inl, String, Bool, true, false, Option, none, some, List, [], ◌∷◌, ◌++◌, if◌then◌else◌,
}
use mathlib.Core.List.{reverse}
use text.Mathlib.Text.{◌==◌ as str_eq}
use text.Mathlib.TextPositions.{eq_refl}
use drive_now.Messaging.{Event, Payload, int, stream_lost}
use drive_now.Messaging.Rabbit.{Pika, done, failed, Link, Envelope}
use drive_now.Messaging.Consumer.{Decoded, json, handled, Members, end, Line, Consumer, consume}
use drive_now.Messaging.Consumer.Deliveries.{envelope_json}
use drive_now.Messaging.Consumer.Topology.{queue, Subscriber, subscribe, Broker, Keeps, IsBroker}
use drive_now.Messaging.Consumer.Topology.SetUp.{IsFree}
use drive_now.Messaging.Consumer.Topology.Logged.{Logged, deliveries, publish_all-Logged}
use drive_now.Process.{rabbitmq_publisher, publish_all}
use drive_now.Tests.Messages.{added}

record Memory : Type 0 where
  exchange_of : String → Option (String × Bool)
  queue_of : String → Option Bool
  bound : String → String → String → Bool
  ready : String → List Envelope

abbrev declare_exchange : String → String → Bool → Memory → Memory
declare_exchange x type durable m = record m {
  exchange_of = λ y. if str_eq y x then some (type, durable) else m.exchange_of y;
}

abbrev declare_queue : String → Bool → Memory → Memory
declare_queue q durable m = record m {
  queue_of = λ r. if str_eq r q then some durable else m.queue_of r;
}

abbrev bind_queue : String → String → String → Memory → Memory
bind_queue q x key m = record m { bound = λ r y k. if str_eq r q then true else m.bound r y k }

abbrev deliver : String → Envelope → Memory → Memory
deliver x body m = record m {
  ready = λ q. if m.bound q x "#" then m.ready q ++ body ∷ [] else m.ready q;
}

-- A channel is `true` if it is live; a stale one does not know that it is not.
abbrev local_pika : Pika
local_pika = record {
  Network = Memory;
  Connection = Unit {0};
  Channel = Bool;
  Bytes = Envelope;
  uuid4 = λ m. "c0ffee";
  utcnow = λ m. "2026-01-01T00:00:00+00:00";
  dumps = λ v. some v;
  connect = λ m. (done tt, m);
  open_channel = λ c m. (done true, m);
  exchange_declare = λ ch x type durable m. (done tt, declare_exchange x type durable m);
  confirm_delivery = λ ch m. (done tt, m);
  basic_publish = λ ch x key id mandatory body m.
      if ch then (done tt, deliver x body m) else (failed stream_lost, m);
  is_open = λ ch m. true;
  close = λ c m. (done tt, m);
}

abbrev local_subscriber : Subscriber local_pika
local_subscriber = record {
  queue_declare = λ ch q durable m. (done tt, declare_queue q durable m);
  queue_bind = λ ch q x key m. (done tt, bind_queue q x key m);
  basic_qos = λ ch count m. (done tt, m);
  basic_consume = λ ch q m. (done tt, m);
}

abbrev local_broker : Broker local_pika
local_broker = record {
  exchange_of = λ x m. m.exchange_of x;
  queue_of = λ q m. m.queue_of q;
  bound = λ q x key m. m.bound q x key;
  ready = λ q m. m.ready q;
  alive = λ c m. true;
  live = λ ch m. ch;
}

unchanged : (m : Memory) → Keeps local_broker m m
unchanged m = record {
  exchanges = λ x. refl;
  queues = λ q. refl;
  bindings = λ q x key. refl;
  messages = λ q. refl;
}

local_broker-IsBroker : IsBroker local_broker local_subscriber
local_broker-IsBroker = record {
  connects = λ m. (tt, m, refl, (unchanged m, refl));
  opens = λ c m up. (true, m, refl, (unchanged m, refl));
  confirms = λ ch m live. (tt, m, refl, (unchanged m, live));
  closes = λ c m. unchanged m;
  limits = λ ch count m live. (tt, m, refl, (unchanged m, live));
  consumes = λ ch q m live. (tt, m, refl, unchanged m);
  declares_exchange = λ ch x type durable m live free.
      (tt, _, refl, (rw (eq_refl x) refl, (λ q. refl), (λ q y key. refl), (λ q. refl), live));
  declares_queue = λ ch q durable m live free.
      (tt, _, refl, ((λ x. refl), rw (eq_refl q) refl, (λ q'. refl), live));
  binds = λ ch q x key m durable type live declared exists.
      (tt, _, refl, ((λ y. refl), rw (eq_refl q) refl, (λ q'. refl), live));
  routes = λ ch q x key id mandatory durable body m live declared everything.
      (tt, deliver x body m, rw live refl, ((λ y. refl), (λ q' y key'. refl), rw everything refl));
  loses = λ ch x key id mandatory body m lost. (stream_lost, m, rw lost refl, refl, unchanged m);
}

abbrev nothing_declared : Memory
nothing_declared = record {
  exchange_of = λ x. none;
  queue_of = λ q. none;
  bound = λ q x key. false;
  ready = λ q. [];
}

nothing_declared-IsFree : IsFree local_broker nothing_declared
nothing_declared-IsFree = record { exchanges = inl refl; queues = inl refl }

abbrev no_members : Payload → Members
no_members p = end

abbrev decoded : Envelope → Decoded
decoded v = json (envelope_json v (no_members v.payload))

abbrev retired : Event
retired = record { event_type = "car.retired"; payload = ("car_id", int 1) ∷ [] }

abbrev stale_link : Link local_pika
stale_link = record { conn = some tt; channel = some false; network = nothing_declared; log = [] }

abbrev silent : Consumer
silent = record { log = []; settled = [] }

publish_all-Logged_example :
    let (r, m) = subscribe {K = local_pika} local_subscriber nothing_declared in
    (k' : Link local_pika) × (ls : List Line) × (r ≡ done tt)
    × (publish_all
          (added ∷ retired ∷ [])
          (rabbitmq_publisher "amqp://localhost" (record stale_link { network = m }))
        ≡ rabbitmq_publisher "amqp://localhost" k')
    × ((consume (deliveries decoded 1 (local_broker.ready queue k'.network)) silent).0 ≡ handled)
    × ((consume (deliveries decoded 1 (local_broker.ready queue k'.network)) silent).1.log
        ≡ reverse ls ++ [])
    × Logged no_members (added ∷ retired ∷ []) ls
publish_all-Logged_example =
    publish_all-Logged local_broker local_broker-IsBroker no_members decoded (λ v. (v, refl, refl))
      nothing_declared (added ∷ retired ∷ []) "amqp://localhost" stale_link silent
      nothing_declared-IsFree refl
