-- ===== src/Messaging/Consumer/Topology.antt =====
-- What `_consume_once` of app/messaging/consumer.py declares before it consumes, over the same pika as
-- the publisher, and the broker behind both as RabbitMQ documents it: a parameter.
pub mod SetUp
pub mod Delivery
pub mod Logged
use drive_now.Base.{
  ℕ, ◌≡◌, ◌⊎◌, String, Bool, true, false, Option, none, some, List, [], ◌∷◌, ◌++◌, if◌then◌else◌,
}
use text.Mathlib.Text.{◌==◌ as str_eq}
use drive_now.Messaging.{PublishError}
use drive_now.Messaging.Rabbit.{Pika, Attempt, done, failed, is_retryable}

-- `EXCHANGE`, `QUEUE` and `_PREFETCH`
abbrev pub exchange : String
exchange = "drivenow.events"

abbrev pub queue : String
queue = "drivenow.event_logger"

abbrev pub prefetch : ℕ
prefetch = 10

-- The calls of a channel that only the consumer makes.
pub record Subscriber (K : Pika) : Type 0 where
  pub queue_declare :
      K.Channel → (queue : String) (durable : Bool) → K.Network → Attempt (Unit {0}) × K.Network
  pub queue_bind :
      K.Channel → (queue exchange routing_key : String) → K.Network → Attempt (Unit {0}) × K.Network
  pub basic_qos : K.Channel → (prefetch_count : ℕ) → K.Network → Attempt (Unit {0}) × K.Network
  pub basic_consume : K.Channel → (queue : String) → K.Network → Attempt (Unit {0}) × K.Network

module _ {N : Type 0} where
  abbrev pub next : {A B : Type 0} → Attempt A × N → (A → N → Attempt B × N) → Attempt B × N
  next (done a, n) f = f a n
  next (failed e, n) f = (failed e, n)

  infixl 5 ◌>>=◌ ◌>>◌
  abbrev ◌>>=◌ : {A B : Type 0} → (N → Attempt A × N) → (A → N → Attempt B × N) → N → Attempt B × N
  ◌>>=◌ m f n = next (m n) f

  abbrev ◌>>◌ : {A B : Type 0} → (N → Attempt A × N) → (N → Attempt B × N) → N → Attempt B × N
  m >> k = m >>= λ _. k

module _ {K : Pika} where
  -- The start of `_consume_once`, up to `basic_consume`.
  unfoldable pub subscribe : Subscriber K → K.Network → Attempt (Unit {0}) × K.Network
  subscribe S = do
    connection ← K.connect
    channel ← K.open_channel connection
    K.exchange_declare channel exchange "topic" true
    S.queue_declare channel queue true
    S.queue_bind channel queue exchange "#"
    S.basic_qos channel prefetch
    S.basic_consume channel queue

-- What a broker holds: an exchange has a type and is durable or not, and so is a queue.
pub record Broker (K : Pika) : Type 0 where
  pub exchange_of : String → K.Network → Option (String × Bool)
  pub queue_of : String → K.Network → Option Bool
  pub bound : (queue exchange routing_key : String) → K.Network → Bool
  -- the messages of a queue, the oldest first
  pub ready : String → K.Network → List K.Bytes
  -- whether a connection is up, and whether a channel is open on one that is
  pub alive : K.Connection → K.Network → Bool
  pub live : K.Channel → K.Network → Bool

-- A declaration of what is absent or was declared in the same way.
abbrev pub Agrees : {A : Type 0} → Option A → A → Type 0
Agrees o a = (o ≡ none) ⊎ (o ≡ some a)

-- A call that returns.
abbrev pub Returns : {N A : Type 0} → Attempt A × N → (A → N → Type 0) → Type 0
Returns {N} {A} r P = (a : A) × (n : N) × (r ≡ (done a, n)) × P a n

module _ {K : Pika} (B : Broker K) where
  -- A call that leaves everything in the broker as it is.
  pub record Keeps (n n' : K.Network) : Type 0 where
    pub exchanges : (x : String) → B.exchange_of x n' ≡ B.exchange_of x n
    pub queues : (q : String) → B.queue_of q n' ≡ B.queue_of q n
    pub bindings : (q x key : String) → B.bound q x key n' ≡ B.bound q x key n
    pub messages : (q : String) → B.ready q n' ≡ B.ready q n

  -- A broker that can be reached, and keeps what it holds. A channel that is not live, since it was
  -- closed or its connection was lost, may still be held: a publish on it raises an error that a new
  -- connection mends, and delivers nothing.
  pub record IsBroker (S : Subscriber K) : Type 0 where
    pub connects :
        (n : K.Network) → Returns (K.connect n) (λ c n'. Keeps n n' × (B.alive c n' ≡ true))
    pub opens :
        (c : K.Connection) (n : K.Network)
        → B.alive c n ≡ true
        → Returns (K.open_channel c n) (λ ch n'. Keeps n n' × (B.live ch n' ≡ true))
    pub confirms :
        (ch : K.Channel) (n : K.Network)
        → B.live ch n ≡ true
        → Returns (K.confirm_delivery ch n) (λ _ n'. Keeps n n' × (B.live ch n' ≡ true))
    pub closes : (c : K.Connection) (n : K.Network) → Keeps n (K.close c n).1
    pub limits :
        (ch : K.Channel) (count : ℕ) (n : K.Network)
        → B.live ch n ≡ true
        → Returns (S.basic_qos ch count n) (λ _ n'. Keeps n n' × (B.live ch n' ≡ true))
    pub consumes :
        (ch : K.Channel) (q : String) (n : K.Network)
        → B.live ch n ≡ true
        → Returns (S.basic_consume ch q n) (λ _ n'. Keeps n n')
    pub declares_exchange :
        (ch : K.Channel) (x type : String) (durable : Bool) (n : K.Network)
        → B.live ch n ≡ true
        → Agrees (B.exchange_of x n) (type, durable)
        → Returns (K.exchange_declare ch x type durable n) (λ _ n'.
          (B.exchange_of x n' ≡ some (type, durable))
          × ((q : String) → B.queue_of q n' ≡ B.queue_of q n)
          × ((q y key : String) → B.bound q y key n' ≡ B.bound q y key n)
          × ((q : String) → B.ready q n' ≡ B.ready q n)
          × (B.live ch n' ≡ true))
    pub declares_queue :
        (ch : K.Channel) (q : String) (durable : Bool) (n : K.Network)
        → B.live ch n ≡ true
        → Agrees (B.queue_of q n) durable
        → Returns (S.queue_declare ch q durable n) (λ _ n'.
          ((x : String) → B.exchange_of x n' ≡ B.exchange_of x n)
          × (B.queue_of q n' ≡ some durable)
          × ((q' : String) → B.ready q' n' ≡ B.ready q' n)
          × (B.live ch n' ≡ true))
    pub binds :
        (ch : K.Channel) (q x key : String) (n : K.Network) (durable : Bool) (type : String × Bool)
        → B.live ch n ≡ true
        → B.queue_of q n ≡ some durable
        → B.exchange_of x n ≡ some type
        → Returns (S.queue_bind ch q x key n) (λ _ n'.
          ((y : String) → B.exchange_of y n' ≡ B.exchange_of y n)
          × (B.bound q x key n' ≡ true)
          × ((q' : String) → B.ready q' n' ≡ B.ready q' n)
          × (B.live ch n' ≡ true))
    -- in a topic exchange, the binding key "#" matches every routing key
    pub routes :
        (ch : K.Channel) (q x key id : String) (mandatory durable : Bool) (body : K.Bytes)
        (n : K.Network)
        → B.live ch n ≡ true
        → B.exchange_of x n ≡ some ("topic", durable)
        → B.bound q x "#" n ≡ true
        → Returns (K.basic_publish ch x key id mandatory body n) (λ _ n'.
          ((y : String) → B.exchange_of y n' ≡ B.exchange_of y n)
          × ((q' y key' : String) → B.bound q' y key' n' ≡ B.bound q' y key' n)
          × (B.ready q n' ≡ B.ready q n ++ body ∷ []))
    pub loses :
        (ch : K.Channel) (x key id : String) (mandatory : Bool) (body : K.Bytes) (n : K.Network)
        → B.live ch n ≡ false
        → (e : PublishError) × (n' : K.Network) × (K.basic_publish ch x key id mandatory body n
            ≡ (failed e, n'))
          × (is_retryable e ≡ true)
          × Keeps n n'
