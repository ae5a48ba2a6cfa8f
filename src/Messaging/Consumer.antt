-- ===== src/Messaging/Consumer.antt =====
-- The event-logging consumer, app/messaging/consumer.py: the check of a delivery, and the loop of
-- `main` with its shutdown. `json.loads`, pika and the signals are parameters.
pub mod Deliveries
pub mod Running
pub mod Signals
pub mod Topology
use drive_now.Base.{
  ℕ, ◌+◌, String, Bool, true, false, not, Option, none, some, List, [], ◌∷◌, if◌then◌else◌,
}
use drive_now.Messaging.Rabbit.{Envelope}
use text.Mathlib.Text.{◌==◌ as str_eq}

-- A decoded JSON value, as far as the consumer looks into it: `other` is a number, a Boolean, null or
-- an array. The keys of an object are distinct.
mutual
  pub data Json : Type 0 where
    str : String → Json
    object : Members → Json
    other : Json

  pub data Members : Type 0 where
    end : Members
    member : String → Json → Members → Members

abbrev pub get : String → Members → Option Json
get key end = none
get key (member name value rest) = if str_eq name key then some value else get key rest

-- The fields of a well-formed event.
pub record Received : Type 0 where
  pub id : String
  pub event_type : String
  pub occurred_at : String
  pub payload : Members

-- The reasons for the `ValueError` of `_parse_event`.
pub data Malformed : Type 0 where
  not_json not_an_object missing_keys payload_not_an_object : Malformed
  not_a_string : (key : String) → Malformed

-- What `json.loads` does with a body: it returns a value, or raises a `ValueError`, or, where the body
-- is nested too deeply, a `RecursionError`, which is no `ValueError`.
pub data Decoded : Type 0 where
  json : Json → Decoded
  value_error recursion_error : Decoded

-- What `_parse_event` returns or raises.
pub data Parsed : Type 0 where
  event : Received → Parsed
  malformed : Malformed → Parsed
  too_deep : Parsed

-- `_REQUIRED_KEYS`
abbrev pub required_keys : List String
required_keys = "id" ∷ "event_type" ∷ "occurred_at" ∷ "payload" ∷ []

-- Whether a required key is missing.
abbrev pub is_missing : List String → Members → Bool
is_missing [] decoded = false
is_missing (key ∷ keys) decoded = elim (get key decoded) [
  | none ↦ true
  | some _ ↦ is_missing keys decoded
]

-- `isinstance(decoded[key], str)`, for a key that is present.
abbrev pub text_of : Option Json → Option String
text_of (some (str s)) = some s
text_of (some (object ms)) = none
text_of (some other) = none
text_of none = none

abbrev pub object_of : Option Json → Option Members
object_of (some (object ms)) = some ms
object_of (some (str s)) = none
object_of (some other) = none
object_of none = none

abbrev pub with_text : String → Members → (String → Parsed) → Parsed
with_text key decoded f = elim (text_of (get key decoded)) [
  | none ↦ malformed (not_a_string key)
  | some s ↦ f s
]

abbrev pub with_object : String → Members → (Members → Parsed) → Parsed
with_object key decoded f = elim (object_of (get key decoded)) [
  | none ↦ malformed payload_not_an_object
  | some ms ↦ f ms
]

-- The checks on a decoded object.
unfoldable pub check_event : Members → Parsed
check_event decoded =
    if is_missing required_keys decoded
    then malformed missing_keys
    else with_text "id" decoded λ id. with_text "event_type" decoded λ event_type.
      with_text "occurred_at" decoded λ occurred_at. with_object "payload" decoded λ payload.
        event (record {
          id = id;
          event_type = event_type;
          occurred_at = occurred_at;
          payload = payload;
        })

-- `_parse_event`, with what `json.loads` does.
abbrev pub parse_event : Decoded → Parsed
parse_event value_error = malformed not_json
parse_event recursion_error = too_deep
parse_event (json (object decoded)) = check_event decoded
parse_event (json (str s)) = malformed not_an_object
parse_event (json other) = malformed not_an_object

-- How a delivery is settled.
pub data Settlement : Type 0 where
  ack : (delivery_tag : ℕ) → Settlement
  nack : (delivery_tag : ℕ) → (requeue : Bool) → Settlement

pub data Line : Type 0 where
  dropping : Malformed → Line
  received : Received → Line

-- What the consumer has written and settled, the latest first.
pub record Consumer : Type 0 where
  pub log : List Line
  pub settled : List Settlement

-- How the callback ends: it returns, or an exception leaves it and `start_consuming` with it.
pub data Handling : Type 0 where
  handled escaped : Handling

abbrev pub settle : ℕ → Parsed → Consumer → Handling × Consumer
settle tag (malformed m) c =
    (handled, record { log = dropping m ∷ c.log; settled = nack tag false ∷ c.settled })
settle tag (event e) c =
    (handled, record { log = received e ∷ c.log; settled = ack tag ∷ c.settled })
settle tag too_deep c = (escaped, c)

-- `_on_message`: only a `ValueError` is caught.
unfoldable pub on_message : (delivery_tag : ℕ) → Decoded → Consumer → Handling × Consumer
on_message tag decoded c = settle tag (parse_event decoded) c

abbrev pub go_on : Handling × Consumer → (Consumer → Handling × Consumer) → Handling × Consumer
go_on (handled, c) rest = rest c
go_on (escaped, c) rest = (escaped, c)

-- The deliveries of a channel, one after the other, up to an exception.
unfoldable pub consume : List (ℕ × Decoded) → Consumer → Handling × Consumer
unfolding on_message
consume [] c = (handled, c)
consume ((tag, decoded) ∷ rest) c = go_on (on_message tag decoded c) (consume rest)

-- How one `_consume_once` ended, and whether `_shutdown` was found set before it and, where the
-- connection was lost, after it.
pub data Outcome : Type 0 where
  clean connection_lost crashed : Outcome

pub record Round : Type 0 where
  pub requested_before : Bool
  pub outcome : Outcome
  pub requested_after : Bool

-- How the loop of `main` stands: it left the loop, an exception left it, or it goes on.
pub data Run : Type 0 where
  stopped raised going : Run

-- The loop of `main` over what its rounds meet: how it stands, and how many connections it tried.
unfoldable pub loop : List Round → Run × ℕ
loop [] = (going, 0)
loop (r ∷ rest) =
    let (run, n) = loop rest in
    if r.requested_before then (stopped, 0) else elim r.outcome [
      | clean ↦ (stopped, 1)
      | crashed ↦ (raised, 1)
      | connection_lost ↦ if r.requested_after then (stopped, 1) else (run, n + 1)
    ]
