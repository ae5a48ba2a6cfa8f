-- ===== src/Messaging/Consumer/Deliveries.antt =====
-- The settlement of deliveries, and the events that the publisher builds.
use drive_now.Base.{
  ℕ, ◌≡◌, ◌↔◌, refl, ap, ◌∙◌, inl, inr, String, false, Option, none, some, List, [], ◌∷◌, ◌++◌,
  arith, Bool-cases, Option-cases, subst, sym, ◌⊎◌,
}
use mathlib.Core.List.{reverse, reverse_aux, reverse_aux-eq}
use drive_now.Messaging.Rabbit.{Envelope}
use drive_now.Messaging.Consumer.{
  Decoded, json, value_error, recursion_error, too_deep, Handling, handled, escaped, go_on, Json,
  Members, str, object, other, end, member, get, Received, Malformed, Parsed, event, malformed,
  is_missing, required_keys, check_event, parse_event, Settlement, ack, nack, Consumer, settle,
  on_message, consume, text_of, object_of, with_text, with_object,
}

-- The values of the four keys, each of its type.
pub record Carries (ms : Members) (e : Received) : Type 0 where
  pub id : get "id" ms ≡ some (str e.id)
  pub event_type : get "event_type" ms ≡ some (str e.event_type)
  pub occurred_at : get "occurred_at" ms ≡ some (str e.occurred_at)
  pub payload : get "payload" ms ≡ some (object e.payload)

text_of-eq : (o : Option Json) (s : String) → text_of o ≡ some s → o ≡ some (str s)
text_of-eq (some (str t)) s e = cc
text_of-eq (some (object ms)) s e = cc
text_of-eq (some other) s e = cc
text_of-eq none s e = cc

object_of-eq : (o : Option Json) (ms : Members) → object_of o ≡ some ms → o ≡ some (object ms)
object_of-eq (some (object t)) ms e = cc
object_of-eq (some (str s)) ms e = cc
object_of-eq (some other) ms e = cc
object_of-eq none ms e = cc

with_text-event :
    (key : String) (ms : Members) (f : String → Parsed) (e : Received)
    → with_text key ms f ≡ event e
    → (s : String) × (get key ms ≡ some (str s)) × (f s ≡ event e)
with_text-event key ms f e h = elim (Option-cases (text_of (get key ms))) [
  | inl x ↦ absurd (ground arith)
  | inr (s, x) ↦ (s, text_of-eq (get key ms) s x, ground arith)
]

with_object-event :
    (key : String) (ms : Members) (f : Members → Parsed) (e : Received)
    → with_object key ms f ≡ event e
    → (p : Members) × (get key ms ≡ some (object p)) × (f p ≡ event e)
with_object-event key ms f e h = elim (Option-cases (object_of (get key ms))) [
  | inl x ↦ absurd (ground arith)
  | inr (p, x) ↦ (p, object_of-eq (get key ms) p x, ground arith)
]

event_eq : {a b : Received} → event a ≡ event b → a ≡ b
event_eq p = cc

check_event-Carries : (ms : Members) (e : Received) → check_event ms ≡ event e → Carries ms e
unfolding check_event
check_event-Carries ms e h = elim (Bool-cases (is_missing required_keys ms)) [
  | inl x ↦ absurd (ground arith)
  | inr x ↦
      let (i, hi, h₁) = with_text-event "id" ms _ e (rw (x, check_event) at h) in
      let (t, ht, h₂) = with_text-event "event_type" ms _ e h₁ in
      let (o, ho, h₃) = with_text-event "occurred_at" ms _ e h₂ in
      let (p, hp, h₄) = with_object-event "payload" ms _ e h₃ in
      let q = event_eq h₄ in
      record {
        id = hi ∙ ap (λ (r : Received). some (str r.id)) q;
        event_type = ht ∙ ap (λ (r : Received). some (str r.event_type)) q;
        occurred_at = ho ∙ ap (λ (r : Received). some (str r.occurred_at)) q;
        payload = hp ∙ ap (λ (r : Received). some (object r.payload)) q;
      }
]

Carries-check_event : (ms : Members) (e : Received) → Carries ms e → check_event ms ≡ event e
unfolding check_event
Carries-check_event ms e c = ground (arith, c.id, c.event_type, c.occurred_at, c.payload)

-- A delivery is parsed as an event if and only if it decodes to an object that has the id, the
-- event type and the occurrence of that event as strings under their keys, and its payload as an
-- object.
pub parse_event-event :
    (decoded : Decoded) (e : Received)
    → (parse_event decoded ≡ event e)
      ↔ ((ms : Members) × (decoded ≡ json (object ms)) × Carries ms e)
parse_event-event decoded e = (parsed decoded, λ c. rw c.1 (Carries-check_event c.0 e c.2))
  where
    parsed :
        (d : Decoded)
        → parse_event d ≡ event e
        → (ms : Members) × (d ≡ json (object ms)) × Carries ms e
    parsed value_error h = absurd (cc)
    parsed recursion_error h = absurd (cc)
    parsed (json (str s)) h = absurd (cc)
    parsed (json other) h = absurd (cc)
    parsed (json (object ms)) h = (ms, refl, check_event-Carries ms e h)

-- The object of an envelope (`build_envelope`), with the object of its payload.
abbrev pub envelope_json : Envelope → Members → Json
envelope_json v payload = object (
    member "id" (str v.id) (
      member "event_type" (str v.event_type)
        (member "occurred_at" (str v.occurred_at) (member "payload" (object payload) end))))

-- If decoding inverts encoding, the envelope that the publisher builds, with an object as its
-- payload, is parsed by the consumer as the event with the same fields.
pub parse_event-envelope_json :
    (Bytes : Type 0) (dumps : Json → Bytes) (loads : Bytes → Decoded)
    → ((j : Json) → loads (dumps j) ≡ json j)
    → (v : Envelope) (payload : Members)
    → parse_event (loads (dumps (envelope_json v payload)))
      ≡ event (record {
        id = v.id;
        event_type = v.event_type;
        occurred_at = v.occurred_at;
        payload = payload;
      })
unfolding check_event
parse_event-envelope_json Bytes dumps loads inverse v payload =
    rw (inverse (envelope_json v payload)) refl

-- What settles a delivery with a tag, without putting it back into the queue.
abbrev pub Settles : ℕ × Decoded → Settlement → Type 0
Settles (tag, decoded) (ack t) = (t ≡ tag) × ((e : Received) × (parse_event decoded ≡ event e))
Settles (tag, decoded) (nack t requeue) =
    (t ≡ tag) × (requeue ≡ false) × ((m : Malformed) × (parse_event decoded ≡ malformed m))

-- Pairwise, in order.
abbrev pub AllSettle : List (ℕ × Decoded) → List Settlement → Type 0
AllSettle [] [] = Unit {0}
AllSettle [] (x ∷ xs) = ⊥
AllSettle (d ∷ ds) [] = ⊥
AllSettle (d ∷ ds) (x ∷ xs) = Settles d x × AllSettle ds xs

-- What is left of the deliveries: nothing, or what begins with one that cannot be decoded for its depth.
abbrev pub Leaves : Handling → List (ℕ × Decoded) → Type 0
Leaves handled rest = rest ≡ []
Leaves escaped rest =
    (tag : ℕ) × (later : List (ℕ × Decoded)) × (rest ≡ (tag, recursion_error) ∷ later)

check_event-returns : (ms : Members) → check_event ms ≡ too_deep → ⊥
unfolding check_event
check_event-returns ms h = absurd (ground arith)

-- The settlement of one delivery, if its decoding is not too deep.
on_message-Settles :
    (d : ℕ × Decoded) (c : Consumer)
    → ((c' : Consumer) × (x : Settlement) × (on_message d.0 d.1 c ≡ (handled, c'))
        × (c'.settled ≡ x ∷ c.settled)
        × Settles d x)
      ⊎ ((on_message d.0 d.1 c ≡ (escaped, c)) × (d.1 ≡ recursion_error))
unfolding on_message
on_message-Settles (tag, value_error) c =
    inl (_, nack tag false, refl, refl, (refl, refl, (_, refl)))
on_message-Settles (tag, recursion_error) c = inr (refl, refl)
on_message-Settles (tag, json (str s)) c =
    inl (_, nack tag false, refl, refl, (refl, refl, (_, refl)))
on_message-Settles (tag, json other) c =
    inl (_, nack tag false, refl, refl, (refl, refl, (_, refl)))
on_message-Settles (tag, json (object ms)) c = settling (check_event ms) refl
  where
    settling :
        (p : Parsed)
        → check_event ms ≡ p
        → ((c' : Consumer) × (x : Settlement) × (settle tag (check_event ms) c ≡ (handled, c'))
            × (c'.settled ≡ x ∷ c.settled)
            × Settles (tag, json (object ms)) x)
          ⊎ ((settle tag (check_event ms) c ≡ (escaped, c)) × (json (object ms) ≡ recursion_error))
    settling (event e) h = inl (_, ack tag, ap (λ p. settle tag p c) h, refl, (refl, (e, h)))
    settling (malformed m) h =
        inl (_, nack tag false, ap (λ p. settle tag p c) h, refl, (refl, refl, (m, h)))
    settling too_deep h = absurd (check_event-returns ms h)

-- How a sequence of deliveries is consumed: `before` is settled by `xs`.
abbrev Consumes : List (ℕ × Decoded) → Consumer → Handling × Consumer → Type 0
Consumes ds c (h, c') =
    (before : List (ℕ × Decoded)) × (rest : List (ℕ × Decoded)) × (xs : List Settlement) × (ds
      ≡ before ++ rest)
    × (c'.settled ≡ reverse_aux xs c.settled)
    × AllSettle before xs
    × Leaves h rest

consume-reverse_aux : (ds : List (ℕ × Decoded)) (c : Consumer) → Consumes ds c (consume ds c)
unfolding consume
consume-reverse_aux [] c = ([], [], [], refl, refl, tt, refl)
consume-reverse_aux ((tag, decoded) ∷ ds) c = elim (on_message-Settles (tag, decoded) c) [
  | inr (e, deep) ↦
      subst (λ r. Consumes ((tag, decoded) ∷ ds) c (go_on r (consume ds))) (sym e)
        ([], (tag, decoded) ∷ ds, [], refl, refl, tt, (tag, ds, ap (λ d. (tag, d) ∷ ds) deep))
  | inl (c₁, x, e, f, g) ↦
      let (before, rest, xs, split, same, settled, left) = consume-reverse_aux ds c₁ in
      subst (λ r. Consumes ((tag, decoded) ∷ ds) c (go_on r (consume ds))) (sym e)
        (
          (tag, decoded) ∷ before,
          rest,
          x ∷ xs,
          ap (λ l. (tag, decoded) ∷ l) split,
          same ∙ ap (reverse_aux xs) f,
          (g, settled),
          left,
        )
]

-- The consumer settles the deliveries of a sequence exactly once and in order, each under its own
-- tag: by an ack if its event is parsed, else by a nack that does not put it back into the queue.
-- It does so up to the end of the sequence, or up to the first body whose decoding raises a
-- RecursionError: that one is not settled, and the exception leaves the callback.
pub consume-settles :
    (ds : List (ℕ × Decoded)) (c : Consumer)
    → let (h, c') = consume ds c in
      (before : List (ℕ × Decoded)) × (rest : List (ℕ × Decoded)) × (xs : List Settlement) × (ds
        ≡ before ++ rest)
      × (c'.settled ≡ reverse xs ++ c.settled)
      × AllSettle before xs
      × Leaves h rest
consume-settles ds c =
    let (before, rest, xs, split, same, settled, left) = consume-reverse_aux ds c in
    (before, rest, xs, split, same ∙ reverse_aux-eq xs c.settled, settled, left)
