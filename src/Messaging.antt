-- ===== src/Messaging.antt =====
-- Domain events and the protocol `EventPublisher` of app/messaging/publisher.py.
pub mod Rabbit
pub mod Consumer
use drive_now.Base.{ℕ, String, List}

-- The values that the services put into a payload.
pub data Value : Type 0 where
  int : ℕ → Value
  names : List String → Value

abbrev pub Payload : Type 0
Payload = List (String × Value)

pub record Event : Type 0 where
  pub event_type : String
  pub payload : Payload

-- What a publish may raise: the exceptions of pika, by the classes that the publisher tells apart,
-- those of the operating system, and a payload that is not serializable.
pub data PublishError : Type 0 where
  amqp_connection_error stream_lost channel_wrong_state os_error : PublishError
  channel_closed_by_broker unroutable nack not_serializable : PublishError

pub data Sent : Type 0 where
  sent : Sent
  raised : PublishError → Sent

-- `EventPublisher`: an implementation has a state of its own and may raise.
pub record Publisher : Type 1 where
  pub State : Type 0
  pub publish : Event → State → Sent × State
