-- ===== src/Messaging/Consumer/Topology/Logged.antt =====
-- Events on their way from a publisher to the log of the consumer.
use drive_now.Base.{
  ℕ, ◌+◌, ◌≡◌, refl, sym, ap, subst, ◌∙◌, String, Option, some, List, [], ◌∷◌, ◌++◌,
}
use mathlib.Core.List.{reverse, reverse_aux, reverse_aux-eq, append_assoc, append-nil}
use drive_now.Messaging.{Payload, Event, Sent}
use drive_now.Messaging.Rabbit.{Pika, Attempt, done, Link, envelope, Envelope}
use drive_now.Messaging.Consumer.{
  Parsed, Decoded, json, Handling, handled, go_on, Json, Members, Received, Line, received,
  dropping, event, parse_event, Consumer, settle, on_message, consume,
}
use drive_now.Messaging.Consumer.Deliveries.{envelope_json, parse_event-envelope_json}
use drive_now.Messaging.Consumer.Topology.{queue, Subscriber, subscribe, Broker, IsBroker}
use drive_now.Messaging.Consumer.Topology.SetUp.{IsSetUp, IsFree, subscribe-IsSetUp}
use drive_now.Messaging.Consumer.Topology.Delivery.{publish-Gains}
use drive_now.Process.{rabbitmq_publisher, publish_all}

-- The lines of these events, in order.
abbrev pub Logged : (Payload → Members) → List Event → List Line → Type 0
Logged members [] [] = Unit {0}
Logged members [] (l ∷ ls) = ⊥
Logged members (e ∷ es) [] = ⊥
Logged members (e ∷ es) (dropping m ∷ ls) = ⊥
Logged members (e ∷ es) (received r ∷ ls) =
    (r.event_type ≡ e.event_type) × (r.payload ≡ members e.payload) × Logged members es ls

-- The deliveries of the messages of a queue, under the tags of a new channel.
abbrev pub deliveries : {Bytes : Type 0} → (Bytes → Decoded) → ℕ → List Bytes → List (ℕ × Decoded)
deliveries loads tag [] = []
deliveries loads tag (b ∷ bs) = (tag, loads b) ∷ deliveries loads (tag + 1) bs

module _ {Bytes : Type 0} (members : Payload → Members) (loads : Bytes → Decoded) where
  -- Every envelope can be encoded, and decoding inverts encoding.
  abbrev pub IsCodec : (Envelope → Option Bytes) → Type 0
  IsCodec dumps =
      (v : Envelope)
      → (b : Bytes) × (dumps v ≡ some b) × (loads b ≡ json (envelope_json v (members v.payload)))

  -- The body of this event.
  abbrev Carries : Event → Bytes → Type 0
  Carries e b =
      (v : Envelope) × (v.event_type ≡ e.event_type)
      × (v.payload ≡ e.payload)
      × (loads b ≡ json (envelope_json v (members v.payload)))

  -- The bodies of these events, in order.
  abbrev Bodies : List Event → List Bytes → Type 0
  Bodies [] [] = Unit {0}
  Bodies [] (b ∷ bs) = ⊥
  Bodies (e ∷ es) [] = ⊥
  Bodies (e ∷ es) (b ∷ bs) = Carries e b × Bodies es bs

  consume-Logged :
      (es : List Event) (bs : List Bytes) (tag : ℕ) (c : Consumer)
      → Bodies es bs
      → (ls : List Line) × ((consume (deliveries loads tag bs) c).0 ≡ handled)
        × ((consume (deliveries loads tag bs) c).1.log ≡ reverse_aux ls c.log)
        × Logged members es ls
  unfolding consume on_message
  consume-Logged [] [] tag c h = ([], refl, refl, tt)
  consume-Logged [] (b ∷ bs) tag c h = absurd h
  consume-Logged (e ∷ es) [] tag c h = absurd h
  consume-Logged (e ∷ es) (b ∷ bs) tag c ((v, et, pl, x), h) =
      let r : Received = record {
        id = v.id;
        event_type = v.event_type;
        occurred_at = v.occurred_at;
        payload = members v.payload;
      } in
      let parsed : parse_event (loads b) ≡ event r =
        ap parse_event x
        ∙ parse_event-envelope_json Json (λ j. j) json (λ j. refl) v (members v.payload) in
      let after : Parsed → Handling × Consumer =
        λ p. go_on (settle tag p c) (consume (deliveries loads (tag + 1) bs)) in
      let (ls, went, f, g) = consume-Logged es bs (tag + 1) (settle tag (event r) c).1 h in
      (
        received r ∷ ls,
        ap (λ p. (after p).0) parsed ∙ went,
        ap (λ p. (after p).1.log) parsed ∙ f,
        (et, ap members pl, g),
      )

module _ {K : Pika} {S : Subscriber K} (B : Broker K) (W : IsBroker B S)
    (members : Payload → Members) (loads : K.Bytes → Decoded)
    (C : IsCodec members loads K.dumps) where
  publish_all-Bodies :
      (es : List Event) (url : String) (k : Link K)
      → IsSetUp B k.network
      → (k' : Link K) × (bs : List K.Bytes) × (publish_all es (rabbitmq_publisher url k)
          ≡ rabbitmq_publisher url k')
        × (B.ready queue k'.network ≡ B.ready queue k.network ++ bs)
        × Bodies members loads es bs
  publish_all-Bodies [] url k s = (k, [], refl, sym (append-nil _), tt)
  publish_all-Bodies (e ∷ es) url k s =
      let (b, x, y) = C (envelope K e k.network) in
      let (k₁, sending, (s₁, r₁)) = publish-Gains B W e b k s x in
      let (k₂, bs, rest, r₂, h) = publish_all-Bodies es url k₁ s₁ in
      (
        k₂,
        b ∷ bs,
        ap (λ (r : Sent × Link K). publish_all es (rabbitmq_publisher url r.1)) sending ∙ rest,
        r₂ ∙ ap (λ ms. ms ++ bs) r₁ ∙ append_assoc (B.ready queue k.network) (b ∷ []) bs,
        ((envelope K e k.network, refl, refl, y), h),
      )

  -- If a broker that can be reached works as documented, so that a publish on a channel that is no
  -- longer live raises a retryable error and delivers nothing, and in it neither the exchange nor
  -- the queue was declared in another way, then the consumer's declarations succeed. If the queue
  -- was empty, every event of a sequence that is published after them is sent, whatever connection
  -- and channel the publisher held, live or not, and the consumer of the queue handles all
  -- deliveries and logs exactly these events in order, if every envelope can be encoded and
  -- decoding inverts encoding.
  pub publish_all-Logged :
      (n : K.Network) (es : List Event) (url : String) (k : Link K) (c : Consumer)
      → IsFree B n
      → B.ready queue n ≡ []
      → let (r, n') = subscribe S n in
        (k' : Link K) × (ls : List Line) × (r ≡ done tt)
        × (publish_all es (rabbitmq_publisher url (record k { network = n' }))
            ≡ rabbitmq_publisher url k')
        × ((consume (deliveries loads 1 (B.ready queue k'.network)) c).0 ≡ handled)
        × ((consume (deliveries loads 1 (B.ready queue k'.network)) c).1.log ≡ reverse ls ++ c.log)
        × Logged members es ls
  publish_all-Logged n es url k c free nothing =
      let (_, n', e, (s, r)) = subscribe-IsSetUp B W n free in
      let at : Attempt (Unit {0}) × K.Network → Link K = λ r. record k { network = r.1 } in
      let (k', bs, sending, r', h) =
        publish_all-Bodies es url (at (subscribe S n))
          (subst (λ (p : Attempt (Unit {0}) × K.Network). IsSetUp B p.1) (sym e) s) in
      let (ls, went, f, g) = consume-Logged members loads es bs 1 c h in
      let all_there : B.ready queue k'.network ≡ bs =
        r'
        ∙ ap (λ (p : Attempt (Unit {0}) × K.Network). B.ready queue p.1 ++ bs) e
        ∙ ap (λ ms. ms ++ bs) (r ∙ nothing) in
      (
        k',
        ls,
        ap (λ p. p.0) e,
        sending,
        ap (λ bs. (consume (deliveries loads 1 bs) c).0) all_there ∙ went,
        ap (λ bs. (consume (deliveries loads 1 bs) c).1.log) all_there
            ∙ f
            ∙ reverse_aux-eq ls c.log,
        g,
      )
