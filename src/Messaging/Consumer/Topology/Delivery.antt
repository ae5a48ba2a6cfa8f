-- ===== src/Messaging/Consumer/Topology/Delivery.antt =====
-- A publish to a broker in which the consumer has made its declarations.
use drive_now.Base.{
  ℕ, ◌≡◌, refl, ap, ◌∙◌, inl, inr, zero, suc, String, true, none, some, ◌⊎◌, [], ◌∷◌, ◌++◌,
  Option-cases, Bool-cases,
}
use drive_now.Messaging.{Event, PublishError, sent}
use drive_now.Messaging.Rabbit.{
  Pika, Attempt, done, failed, is_retryable, reconnecting, Link, bind, calling, envelope, reset,
  reconnect, ensure_channel, publish_once, attempts, publish,
}
use drive_now.Messaging.Consumer.Topology.{
  exchange, queue, Subscriber, Broker, Keeps, Returns, IsBroker,
}
use drive_now.Messaging.Consumer.Topology.SetUp.{IsSetUp}

-- The same for the publisher's link.
calling_returns :
    {K : Pika} {A C : Type 0} (f : K.Network → Attempt A × K.Network) (k : Link K)
    (g : A → Link K → Attempt C × Link K) (P : A → K.Network → Type 0) (Q : C → Link K → Type 0)
    → Returns (f k.network) P
    → ((a : A) (n : K.Network) → P a n → Returns (g a (record k { network = n })) Q)
    → Returns (bind (calling f k) g) Q
calling_returns {K} {A} f k g P Q (a, n, e, p) h =
    let (c, k', e', q) = h a n p in
    let after : Attempt A × K.Network → Attempt A × Link K =
      λ r. (r.0, record k { network = r.1 }) in
    (c, k', ap (λ r. bind (after r) g) e ∙ e', q)

module _ {K : Pika} {S : Subscriber K} (B : Broker K) (W : IsBroker B S) where
  -- What is set up stays so, and the queue is the same.
  abbrev Stays : (n n' : K.Network) → Type 0
  Stays n n' = IsSetUp B n' × (B.ready queue n' ≡ B.ready queue n)

  stays : (n n' m : K.Network) → Stays n n' → Keeps B n' m → Stays n m
  stays n n' m (s, r) k = (
    record {
      declared = k.exchanges exchange ∙ s.declared;
      everything = k.bindings queue exchange "#" ∙ s.everything;
    },
    k.messages queue ∙ r,
  )

  reset-Stays : (k : Link K) → IsSetUp B k.network → Stays k.network (reset k).network
  reset-Stays k s = elim (Option-cases k.conn) [
    | inl x ↦ rw x (s, refl)
    | inr (c, x) ↦ rw x (stays k.network k.network _ (s, refl) (W.closes c k.network))
  ]

  -- A channel that is live, with everything as it was.
  abbrev Reconnects : (n : K.Network) → K.Channel → Link K → Type 0
  Reconnects n ch k' = Stays n k'.network × (B.live ch k'.network ≡ true)

  reconnect-Returns :
      (k : Link K) (n : K.Network) → Stays n k.network → Returns (reconnect k) (Reconnects n)
  unfolding reconnect
  reconnect-Returns k n s =
      calling_returns K.connect k _ _ _ (W.connects k.network) λ c n₁ (k₁, up).
        calling_returns (K.open_channel c) _ _ _ _ (W.opens c n₁ up) λ ch n₂ (k₂, l₂).
          let s₂ = stays n n₁ n₂ (stays n k.network n₁ s k₁) k₂ in
          calling_returns (K.exchange_declare ch exchange "topic" true) _ _ _ _
            (W.declares_exchange ch exchange "topic" true n₂ l₂ (inr s₂.0.declared))
            λ _ n₃ (x₃, q₃, b₃, r₃, l₃).
              calling_returns (K.confirm_delivery ch) _ _ _ _ (W.confirms ch n₃ l₃) λ _ n₄ (k₄, l₄).
                (
                  ch,
                  _,
                  refl,
                  (
                    stays n n₃ n₄
                        (
                          record {
                            declared = x₃;
                            everything = b₃ queue exchange "#" ∙ s₂.0.everything;
                          },
                          r₃ queue ∙ s₂.1,
                        )
                        k₄,
                    l₄,
                  ),
                )

  ensure_channel-Returns :
      (k : Link K)
      → IsSetUp B k.network
      → Returns (ensure_channel k) (λ ch k'. Stays k.network k'.network)
  unfolding ensure_channel
  ensure_channel-Returns k s =
      let (ch, k', e, (st, _)) = reconnect-Returns (reset k) k.network (reset-Stays k s) in
      elim (Option-cases k.channel) [
        | inl x ↦ simp (x, ensure_channel) (ch, k', e, st)
        | inr (held, x) ↦ elim (Bool-cases (K.is_open held k.network)) [
          | inl y ↦ simp (x, y, ensure_channel) (held, k, refl, (s, refl))
          | inr y ↦ simp (x, y, ensure_channel) (ch, k', e, st)
        ]
      ]

  ensure_channel-Reconnects :
      (k : Link K)
      → IsSetUp B k.network
      → k.channel ≡ none
      → Returns (ensure_channel k) (Reconnects k.network)
  unfolding ensure_channel
  ensure_channel-Reconnects k s x =
      simp (x, ensure_channel) (reconnect-Returns (reset k) k.network (reset-Stays k s))

  -- What is set up stays so, and the queue has one more message.
  abbrev pub Gains : K.Bytes → (n n' : K.Network) → Type 0
  Gains body n n' = IsSetUp B n' × (B.ready queue n' ≡ B.ready queue n ++ body ∷ [])

  module _ (ev id : String) (body : K.Bytes) where
    called :
        (ch : K.Channel) (k : Link K) (r : Attempt (Unit {0})) (n : K.Network)
        → K.basic_publish ch exchange ev id true body k.network ≡ (r, n)
        → calling (K.basic_publish ch exchange ev id true body) k ≡ (r, record k { network = n })
    called ch k r n e =
        ap (λ (r : Attempt (Unit {0}) × K.Network). (r.0, record k { network = r.1 })) e

    -- A publish on a live channel.
    live-Returns :
        (k : Link K) (ch : K.Channel) (k₁ : Link K)
        → ensure_channel k ≡ (done ch, k₁)
        → Reconnects k.network ch k₁
        → Returns (publish_once ev id body k) (λ _ k'. Gains body k.network k'.network)
    unfolding publish_once
    live-Returns k ch k₁ e₁ ((s₁, r₁), l) =
        let (_, n₂, e₂, (x₂, b₂, r₂)) =
          W.routes ch queue exchange ev id true true body k₁.network l s₁.declared s₁.everything in
        (
          tt,
          record k₁ { network = n₂ },
          rw (e₁, publish_once) (called ch k₁ (done tt) n₂ e₂),
          (
            record {
              declared = x₂ exchange ∙ s₁.declared;
              everything = b₂ queue exchange "#" ∙ s₁.everything;
            },
            r₂ ∙ ap (λ ms. ms ++ body ∷ []) r₁,
          ),
        )

    -- An attempt that fails is worth another, and has delivered nothing.
    abbrev Fails : Link K → Type 0
    Fails k =
        (e : PublishError) × (k' : Link K) × (publish_once ev id body k ≡ (failed e, k'))
        × (is_retryable e ≡ true)
        × Stays k.network k'.network

    publish_once-cases :
        (k : Link K)
        → IsSetUp B k.network
        → Returns (publish_once ev id body k) (λ _ k'. Gains body k.network k'.network) ⊎ Fails k
    unfolding publish_once
    publish_once-cases k s =
        let (ch, k₁, e₁, st) = ensure_channel-Returns k s in
        elim (Bool-cases (B.live ch k₁.network)) [
          | inl l ↦ inl (live-Returns k ch k₁ e₁ (st, l))
          | inr l ↦
              let (e, n₂, e₂, retry, kept) = W.loses ch exchange ev id true body k₁.network l in
              inr (
                e,
                record k₁ { network = n₂ },
                rw (e₁, publish_once) (called ch k₁ (failed e) n₂ e₂),
                retry,
                stays k.network k₁.network n₂ st kept,
              )
        ]

    attempts-sent :
        (n : ℕ) (k k' : Link K)
        → publish_once ev id body k ≡ (done tt, k')
        → attempts n ev id body k ≡ (sent, k')
    unfolding attempts
    attempts-sent zero k k' e = rw (e, attempts) refl
    attempts-sent (suc n) k k' e = rw (e, attempts) refl

    abbrev Delivers : ℕ → Link K → Type 0
    Delivers retries k =
        (k' : Link K) × (attempts retries ev id body k ≡ (sent, k'))
        × Gains body k.network k'.network

    -- Without a channel, the last attempt suffices.
    last-Delivers : (k : Link K) → IsSetUp B k.network → k.channel ≡ none → Delivers 0 k
    last-Delivers k s x =
        let (ch, k₁, e₁, fresh) = ensure_channel-Reconnects k s x in
        let (_, k', e, gains) = live-Returns k ch k₁ e₁ fresh in (k', attempts-sent 0 k k' e, gains)

    attempts-Delivers : (k : Link K) → IsSetUp B k.network → Delivers 1 k
    unfolding attempts
    attempts-Delivers k s = elim (publish_once-cases k s) [
      | inl (_, k', e, gains) ↦ (k', attempts-sent 1 k k' e, gains)
      | inr (e, k₁, failing, retry, (s₁, r₁)) ↦
          let again = record (reset k₁) { log = reconnecting ev e ∷ k₁.log } in
          let (s₂, r₂) = reset-Stays k₁ s₁ in
          let (k', sending, (s', r')) = last-Delivers again s₂ refl in
          (
            k',
            rw (failing, attempts) (rw retry sending),
            (s', r' ∙ ap (λ ms. ms ++ body ∷ []) (r₂ ∙ r₁)),
          )
    ]

  pub publish-Gains :
      (event : Event) (body : K.Bytes) (k : Link K)
      → IsSetUp B k.network
      → K.dumps (envelope K event k.network) ≡ some body
      → (k' : Link K) × (publish event k ≡ (sent, k')) × Gains body k.network k'.network
  unfolding publish
  publish-Gains event body k s x =
      let (k', e, gains) = attempts-Delivers event.event_type (K.uuid4 k.network) body k s in
      (k', rw (x, publish) e, gains)
