-- ===== src/Messaging/Rabbit.antt =====
-- `RabbitMQPublisher` of app/messaging/rabbitmq.py. pika, the broker behind it, `json.dumps` and the
-- two calls that stamp an envelope are a parameter. A publish holds the lock from its first attempt to
-- its end, so one runs at a time.
pub mod Recovery
pub mod Unreachable
use drive_now.Base.{
  ℕ, zero, suc, String, Bool, true, false, Option, none, some, List, [], ◌∷◌, if◌then◌else◌,
}
use drive_now.Messaging.{
  Payload, Event, PublishError, amqp_connection_error, stream_lost, channel_wrong_state, os_error,
  channel_closed_by_broker, unroutable, nack, not_serializable, Sent, sent, raised, Publisher,
}

-- `build_envelope`
pub record Envelope : Type 0 where
  pub id : String
  pub event_type : String
  pub occurred_at : String
  pub payload : Payload

-- A call that returns or raises.
pub data Attempt (A : Type 0) : Type 0 where
  done : A → Attempt A
  failed : PublishError → Attempt A

pub record Pika : Type 1 where
  pub Network : Type 0
  pub Connection : Type 0
  pub Channel : Type 0
  pub Bytes : Type 0
  -- `uuid.uuid4()` and `datetime.now(UTC)`
  pub uuid4 : Network → String
  pub utcnow : Network → String
  -- `none` if the payload is not serializable
  pub dumps : Envelope → Option Bytes
  pub connect : Network → Attempt Connection × Network
  pub open_channel : Connection → Network → Attempt Channel × Network
  pub exchange_declare :
      Channel
      → (exchange exchange_type : String) (durable : Bool) → Network
      → Attempt (Unit {0}) × Network
  pub confirm_delivery : Channel → Network → Attempt (Unit {0}) × Network
  pub basic_publish :
      Channel
      → (exchange routing_key message_id : String) (mandatory : Bool) → Bytes
      → Network
      → Attempt (Unit {0}) × Network
  pub is_open : Channel → Network → Bool
  pub close : Connection → Network → Attempt (Unit {0}) × Network

-- `EXCHANGE`
abbrev pub exchange : String
exchange = "drivenow.events"

-- The log lines of the publisher.
pub data Line : Type 0 where
  reconnecting : (event_type : String) → PublishError → Line
  gave_up : (event_type : String) → PublishError → Line

-- `_RETRYABLE`
abbrev pub is_retryable : PublishError → Bool
is_retryable amqp_connection_error = true
is_retryable stream_lost = true
is_retryable channel_wrong_state = true
is_retryable os_error = true
is_retryable channel_closed_by_broker = false
is_retryable unroutable = false
is_retryable nack = false
is_retryable not_serializable = false

-- The fields of the publisher, the network, and the lines written, the latest first.
pub record Link (K : Pika) : Type 0 where
  pub conn : Option K.Connection
  pub channel : Option K.Channel
  pub network : K.Network
  pub log : List Line

abbrev pub envelope : (K : Pika) → Event → K.Network → Envelope
envelope K event n = record {
  id = K.uuid4 n;
  event_type = event.event_type;
  occurred_at = K.utcnow n;
  payload = event.payload;
}

module _ {K : Pika} where
  abbrev pub bind :
      {A B : Type 0} → Attempt A × Link K → (A → Link K → Attempt B × Link K) → Attempt B × Link K
  bind (done a, k) f = f a k
  bind (failed e, k) f = (failed e, k)

  -- A call of pika.
  abbrev pub calling :
      {A : Type 0} → (K.Network → Attempt A × K.Network) → Link K → Attempt A × Link K
  calling f k = let (r, n) = f k.network in (r, record k { network = n })

  -- `_reset`: whatever the close raises is suppressed.
  abbrev pub reset : Link K → Link K
  reset k = record k {
    conn = none;
    channel = none;
    network = elim k.conn [ none ↦ k.network | some c ↦ (K.close c k.network).1 ];
  }

  -- The part of `_ensure_channel` after the reset.
  unfoldable pub reconnect : Link K → Attempt K.Channel × Link K
  reconnect k = bind (calling K.connect k) λ conn k₁.
      bind (calling (K.open_channel conn) (record k₁ { conn = some conn })) λ ch k₂.
        bind (calling (K.exchange_declare ch exchange "topic" true) k₂) λ _ k₃.
          bind (calling (K.confirm_delivery ch) k₃)
            λ _ k₄. (done ch, record k₄ { channel = some ch })

  unfoldable pub ensure_channel : Link K → Attempt K.Channel × Link K
  ensure_channel k = elim k.channel [
    | none ↦ reconnect (reset k)
    | some ch ↦ if K.is_open ch k.network then (done ch, k) else reconnect (reset k)
  ]

  unfoldable pub publish_once :
      (event_type message_id : String) → K.Bytes → Link K → Attempt (Unit {0}) × Link K
  publish_once event_type message_id body k =
      bind (ensure_channel k)
        (λ ch. calling (K.basic_publish ch exchange event_type message_id true body))

  -- What follows an attempt: a retryable error goes to its handler, any other is raised.
  abbrev pub after_attempt :
      (PublishError → Link K → Sent × Link K) → Attempt (Unit {0}) × Link K → Sent × Link K
  after_attempt handler (done _, k) = (sent, k)
  after_attempt handler (failed e, k) = if is_retryable e then handler e k else (raised e, k)

  abbrev pub give_up : String → PublishError → Link K → Sent × Link K
  give_up event_type e k = (raised e, record (reset k) { log = gave_up event_type e ∷ k.log })

  abbrev pub try_again : String → (Link K → Sent × Link K) → PublishError → Link K → Sent × Link K
  try_again event_type rest e k =
      rest (record (reset k) { log = reconnecting event_type e ∷ k.log })

  -- The loop over the attempts, by the number of retries that are left.
  unfoldable pub attempts :
      (retries : ℕ) (event_type message_id : String) → K.Bytes → Link K → Sent × Link K
  attempts zero event_type message_id body k =
      after_attempt (give_up event_type) (publish_once event_type message_id body k)
  attempts (suc n) event_type message_id body k =
      let rest = attempts n event_type message_id body in
      after_attempt (try_again event_type rest) (publish_once event_type message_id body k)

  unfoldable pub publish : Event → Link K → Sent × Link K
  unfolding attempts
  publish event k = elim (K.dumps (envelope K event k.network)) [
    | none ↦ (raised not_serializable, k)
    | some body ↦ attempts 1 event.event_type (K.uuid4 k.network) body k
  ]

  unfoldable pub close : Link K → Link K
  close k = reset k

-- The publisher that the services receive when the message queue is enabled.
abbrev pub rabbitmq : Pika → Publisher
rabbitmq K = record { State = Link K; publish = publish {K = K} }
