-- ===== src/Messaging/Rabbit/Unreachable.antt =====
-- A publish while no connection to the broker can be made.
use drive_now.Base.{
  ℕ, ◌+◌, ◌≡◌, refl, ap, ◌∙◌, inl, inr, String, true, none, some, ◌∷◌, arith, Option-cases,
}
use drive_now.Messaging.{Event, PublishError, raised}
use drive_now.Messaging.Rabbit.{
  Pika, Link, failed, is_retryable, reset, reconnect, ensure_channel, publish_once, attempts,
  publish, envelope, give_up, reconnecting,
}

-- Every connect is refused, and `tries` counts them; closing does not connect.
pub record IsUnreachable (K : Pika) (tries : K.Network → ℕ) : Type 0 where
  pub refuses :
      (n : K.Network)
      → (e : PublishError) × (n' : K.Network) × (K.connect n ≡ (failed e, n'))
        × (is_retryable e ≡ true)
        × (tries n' ≡ tries n + 1)
  pub closes : (c : K.Connection) (n : K.Network) → tries (K.close c n).1 ≡ tries n

module _ {K : Pika} {tries : K.Network → ℕ} (U : IsUnreachable K tries) where
  reset-tries : (k : Link K) → tries (reset k).network ≡ tries k.network
  reset-tries k = elim (Option-cases k.conn) [
    | inl x ↦ rw x refl
    | inr (c, x) ↦ rw x (U.closes c k.network)
  ]

  -- An attempt without a channel connects once, in vain.
  publish_once-refused :
      (ev id : String) (body : K.Bytes) (k : Link K)
      → k.channel ≡ none
      → (e : PublishError) × (k' : Link K) × (publish_once ev id body k ≡ (failed e, k'))
        × (is_retryable e ≡ true)
        × (tries k'.network ≡ tries k.network + 1)
  unfolding publish_once ensure_channel reconnect
  publish_once-refused ev id body k x =
      let (e, n, refused, retry, once) = U.refuses (reset k).network in
      (
        e,
        record (reset k) { network = n },
        rw (x, publish_once, ensure_channel, reconnect) (rw refused refl),
        retry,
        once ∙ ap (λ m. m + 1) (reset-tries k),
      )

  attempts_last :
      (ev id : String) (body : K.Bytes) (k : Link K)
      → k.channel ≡ none
      → (e : PublishError) × (k' : Link K) × (attempts 0 ev id body k ≡ (raised e, k'))
        × (tries k'.network ≡ tries k.network + 1)
  unfolding attempts
  attempts_last ev id body k x =
      let (e, k', failing, retry, once) = publish_once-refused ev id body k x in
      (e, (give_up ev e k').1, rw (failing, attempts) (rw retry refl), reset-tries k' ∙ once)

  -- If every connect is refused with a retryable error and closing a connection does not connect,
  -- then a publish of a serializable event by a publisher without a channel raises, after exactly
  -- two connects.
  pub publish-twice :
      (event : Event) (k : Link K) (body : K.Bytes)
      → k.channel ≡ none
      → K.dumps (envelope K event k.network) ≡ some body
      → (e : PublishError) × (k' : Link K) × (publish event k ≡ (raised e, k'))
        × (tries k'.network ≡ tries k.network + 2)
  unfolding publish attempts
  publish-twice event k body x encoded =
      let ev = event.event_type in
      let id = K.uuid4 k.network in
      let (e, k₁, failing, retry, once) = publish_once-refused ev id body k x in
      let (e', k₂, again, twice) =
        attempts_last ev id body (record (reset k₁) { log = reconnecting ev e ∷ k₁.log }) refl in
      (
        e',
        k₂,
        rw (encoded, publish) (rw (failing, attempts) (rw retry again)),
        twice ∙ ap (λ m. m + 1) (reset-tries k₁ ∙ once) ∙ (omega arith),
      )
