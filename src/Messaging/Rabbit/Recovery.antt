-- ===== src/Messaging/Rabbit/Recovery.antt =====
-- The state in which a publish leaves the link, and a connection that was lost.
use drive_now.Base.{
  ℕ, zero, suc, ◌≡◌, refl, sym, ap, ◌∙◌, inl, inr, String, true, none, some, List, ◌∷◌, arith,
  Bool-cases, Option-cases,
}
use drive_now.Messaging.{Event, PublishError, Sent, sent, raised}
use drive_now.Messaging.Rabbit.{
  Pika, exchange, Link, Attempt, done, failed, is_retryable, reset, reconnect, ensure_channel,
  publish_once, attempts, after_attempt, publish, bind, calling, envelope, gave_up, give_up,
  try_again, Line,
}

-- From the network `n`, a new connection can be made and an event published on it.
abbrev pub Reaches : (K : Pika) → String → String → K.Bytes → K.Network → Type 0
Reaches K ev id body n =
    (c : K.Connection) × (ch : K.Channel) × (n₁ : K.Network) × (n₂ : K.Network) × (n₃ : K.Network)
    × (n₄ : K.Network) × (n₅ : K.Network) × (K.connect n ≡ (done c, n₁))
    × (K.open_channel c n₁ ≡ (done ch, n₂))
    × (K.exchange_declare ch exchange "topic" true n₂ ≡ (done tt, n₃))
    × (K.confirm_delivery ch n₃ ≡ (done tt, n₄))
    × (K.basic_publish ch exchange ev id true body n₄ ≡ (done tt, n₅))

module _ {K : Pika} where
  -- A channel is only held together with its connection.
  abbrev pub IsLinked : Link K → Type 0
  IsLinked k = k.conn ≡ none → k.channel ≡ none

  -- No connection is held.
  abbrev pub IsReset : Link K → Type 0
  IsReset k = (k.conn ≡ none) × (k.channel ≡ none)

  reconnect-IsLinked : (k : Link K) → IsReset k → IsLinked (reconnect k).1
  unfolding reconnect
  reconnect-IsLinked k h = ground arith

  ensure_channel-IsLinked : (k : Link K) → IsLinked k → IsLinked (ensure_channel k).1
  unfolding ensure_channel
  ensure_channel-IsLinked k h = elim (Option-cases k.channel) [
    | inl x ↦ simp (x, ensure_channel) (reconnect-IsLinked (reset k) (refl, refl))
    | inr (ch, x) ↦ elim (Bool-cases (K.is_open ch k.network)) [
      | inl y ↦ simp (x, y, ensure_channel) (λ c. sym x ∙ h c)
      | inr y ↦ simp (x, y, ensure_channel) (reconnect-IsLinked (reset k) (refl, refl))
    ]
  ]

  bind-IsLinked :
      {A B : Type 0} (r : Attempt A × Link K) (f : A → K.Network → Attempt B × K.Network)
      → IsLinked r.1
      → IsLinked (bind r (λ a. calling (f a))).1
  bind-IsLinked (done a, k) f h = h
  bind-IsLinked (failed e, k) f h = h

  publish_once-IsLinked :
      (ev id : String) (body : K.Bytes) (k : Link K)
      → IsLinked k
      → IsLinked (publish_once ev id body k).1
  unfolding publish_once
  publish_once-IsLinked ev id body k h =
      bind-IsLinked (ensure_channel k) (λ ch. K.basic_publish ch exchange ev id true body)
        (ensure_channel-IsLinked k h)

  after_attempt-IsLinked :
      (handler : PublishError → Link K → Sent × Link K) (r : Attempt (Unit {0}) × Link K)
      → ((e : PublishError) (k : Link K) → IsLinked (handler e k).1)
      → IsLinked r.1
      → IsLinked (after_attempt handler r).1
  after_attempt-IsLinked handler (done _, k) g h = h
  after_attempt-IsLinked handler (failed e, k) g h = elim (Bool-cases (is_retryable e)) [
    | inl x ↦ rw x (g e k)
    | inr x ↦ rw x h
  ]

  attempts-IsLinked :
      (n : ℕ) (ev id : String) (body : K.Bytes) (k : Link K)
      → IsLinked k
      → IsLinked (attempts n ev id body k).1
  unfolding attempts
  attempts-IsLinked zero ev id body k h =
      after_attempt-IsLinked (give_up ev) (publish_once ev id body k) (λ e k'. λ x. refl)
        (publish_once-IsLinked ev id body k h)
  attempts-IsLinked (suc n) ev id body k h =
      after_attempt-IsLinked (try_again ev (attempts n ev id body)) (publish_once ev id body k)
        (λ e k'. attempts-IsLinked n ev id body _ (λ x. refl))
        (publish_once-IsLinked ev id body k h)

  -- A publish, whether it raises or not, keeps the invariant that without a connection no channel
  -- is held.
  pub publish-IsLinked : (event : Event) (k : Link K) → IsLinked k → IsLinked (publish event k).1
  unfolding publish
  publish-IsLinked event k h = elim (Option-cases (K.dumps (envelope K event k.network))) [
    | inl x ↦ rw (x, publish) h
    | inr (body, x) ↦
        rw (x, publish) (attempts-IsLinked 1 event.event_type (K.uuid4 k.network) body k h)
  ]

  -- The state after giving up.
  abbrev pub GaveUp : String → PublishError → Link K → Type 0
  GaveUp ev e k = IsReset k × ((lines : List Line) × (k.log ≡ gave_up ev e ∷ lines))

  after_attempt-GaveUp :
      (handler : PublishError → Link K → Sent × Link K) (ev : String) (e : PublishError)
      (r : Attempt (Unit {0}) × Link K)
      → is_retryable e ≡ true
      → ((e' : PublishError) (k : Link K)
          → (handler e' k).0 ≡ raised e
          → GaveUp ev e (handler e' k).1)
      → (after_attempt handler r).0 ≡ raised e
      → GaveUp ev e (after_attempt handler r).1
  after_attempt-GaveUp handler ev e (done _, k) t g h = absurd (cc)
  after_attempt-GaveUp handler ev e (failed e', k) t g h = elim (Bool-cases (is_retryable e')) [
    | inl x ↦ rw x (g e' k (rw x at h))
    | inr x ↦ absurd (ground arith)
  ]

  give_up-GaveUp :
      (ev : String) (e e' : PublishError) (k : Link K)
      → (give_up ev e' k).0 ≡ raised e
      → GaveUp ev e (give_up ev e' k).1
  give_up-GaveUp ev e e' k h = ((refl, refl), (k.log, ap (λ x. gave_up ev x ∷ k.log) (raised_eq h)))
    where
      raised_eq : raised e' ≡ raised e → e' ≡ e
      raised_eq p = cc

  attempts-GaveUp :
      (n : ℕ) (ev id : String) (body : K.Bytes) (k : Link K) (e : PublishError)
      → is_retryable e ≡ true
      → (attempts n ev id body k).0 ≡ raised e
      → GaveUp ev e (attempts n ev id body k).1
  unfolding attempts
  attempts-GaveUp zero ev id body k e t h =
      after_attempt-GaveUp (give_up ev) ev e (publish_once ev id body k) t
        (λ e' k'. give_up-GaveUp ev e e' k') h
  attempts-GaveUp (suc n) ev id body k e t h =
      after_attempt-GaveUp (try_again ev (attempts n ev id body)) ev e (publish_once ev id body k) t
        (λ e' k'. attempts-GaveUp n ev id body _ e t) h

  -- A publish that raises a retryable error leaves neither a connection nor a channel, and the last
  -- line of its log says that it gave up on that event with that error.
  pub publish-GaveUp :
      (event : Event) (k : Link K) (e : PublishError)
      → is_retryable e ≡ true
      → (publish event k).0 ≡ raised e
      → GaveUp event.event_type e (publish event k).1
  unfolding publish
  publish-GaveUp event k e t h = elim (Option-cases (K.dumps (envelope K event k.network))) [
    | inl x ↦ absurd (ground arith)
    | inr (body, x) ↦
        rw (x, publish)
          (attempts-GaveUp 1 event.event_type (K.uuid4 k.network) body k e t (rw (x, publish) at h))
  ]

  fresh_publish :
      (ev id : String) (body : K.Bytes) (k : Link K)
      → k.channel ≡ none
      → Reaches K ev id body (reset k).network
      → (publish_once ev id body k).0 ≡ done tt
  unfolding publish_once ensure_channel reconnect
  fresh_publish ev id body k h (c, ch, n₁, n₂, n₃, n₄, n₅, a, b, d, f, g) =
      simp (h, publish_once, ensure_channel, reconnect, a, b, d, f, g) refl

  last-sent :
      (ev id : String) (body : K.Bytes) (k : Link K)
      → (publish_once ev id body k).0 ≡ done tt
      → (attempts zero ev id body k).0 ≡ sent
  unfolding attempts
  last-sent ev id body k h = settled (publish_once ev id body k) h
    where
      settled :
          (r : Attempt (Unit {0}) × Link K)
          → r.0 ≡ done tt
          → (after_attempt (give_up ev) r).0 ≡ sent
      settled (done _, k') h = refl
      settled (failed e, k') h = absurd (cc)

  retried-sent :
      (ev : String) (rest : Link K → Sent × Link K) (r : Attempt (Unit {0}) × Link K)
      → ((e : PublishError) → r.0 ≡ failed e → is_retryable e ≡ true)
      → ((k : Link K) → k.conn ≡ none → k.channel ≡ none → (rest k).0 ≡ sent)
      → (after_attempt (try_again ev rest) r).0 ≡ sent
  retried-sent ev rest (done _, k) retry g = refl
  retried-sent ev rest (failed e, k) retry g = rw (retry e refl) (g _ refl refl)

  -- If from every network a new connection can be made and the event published on it, and the first
  -- attempt at most raises a retryable error, then a publish of a serializable event does not
  -- raise, whatever connection and channel were held.
  pub publish-recovers :
      (event : Event) (k : Link K) (body : K.Bytes)
      → let id = K.uuid4 k.network in
        K.dumps (envelope K event k.network) ≡ some body
        → ((e : PublishError)
            → (publish_once event.event_type id body k).0 ≡ failed e
            → is_retryable e ≡ true)
        → ((n : K.Network) → Reaches K event.event_type id body n)
        → (publish event k).0 ≡ sent
  unfolding publish attempts
  publish-recovers event k body x retry reaches =
      rw (x, publish)
        (retried-sent event.event_type (attempts zero event.event_type (K.uuid4 k.network) body)
          (publish_once event.event_type (K.uuid4 k.network) body k) retry
          (λ k' _ c.
            last-sent event.event_type (K.uuid4 k.network) body k'
              (fresh_publish event.event_type (K.uuid4 k.network) body k' c (reaches _))))
