-- ===== src/Messaging/Consumer/Topology/SetUp.antt =====
-- What the consumer's declarations leave in a broker.
use drive_now.Base.{◌≡◌, ◌∙◌, true, Option, some}
use drive_now.Messaging.Rabbit.{Pika, Attempt}
use drive_now.Messaging.Consumer.Topology.{
  exchange, queue, prefetch, Subscriber, next, subscribe, Broker, Agrees, Returns, IsBroker,
}

module _ {K : Pika} (B : Broker K) where
  -- The exchange is there, and the queue is bound to all of its events.
  pub record IsSetUp (n : K.Network) : Type 0 where
    pub declared : B.exchange_of exchange n ≡ some ("topic", true)
    pub everything : B.bound queue exchange "#" n ≡ true

  -- Nobody has declared the exchange or the queue in another way.
  pub record IsFree (n : K.Network) : Type 0 where
    pub exchanges : Agrees (B.exchange_of exchange n) ("topic", true)
    pub queues : Agrees (B.queue_of queue n) true

returning :
    {N A C : Type 0} (r : Attempt A × N) (f : A → N → Attempt C × N) (P : A → N → Type 0)
    (Q : C → N → Type 0)
    → Returns r P
    → ((a : A) (n : N) → P a n → Returns (f a n) Q)
    → Returns (next r f) Q
returning r f P Q (a, n, e, p) k = let (c, n', e', q) = k a n p in (c, n', rw (e, next) e', q)

Agrees-eq : {A : Type 0} {o o' : Option A} {a : A} → o' ≡ o → Agrees o a → Agrees o' a
Agrees-eq e h = rw e h

module _ {K : Pika} {S : Subscriber K} (B : Broker K) (W : IsBroker B S) where
  pub subscribe-IsSetUp :
      (n : K.Network)
      → IsFree B n
      → Returns (subscribe S n) (λ _ n'. IsSetUp B n' × (B.ready queue n' ≡ B.ready queue n))
  unfolding subscribe
  subscribe-IsSetUp n free = returning _ _ _ _ (W.connects n) λ c n₁ (k₁, up).
      returning _ _ _ _ (W.opens c n₁ up) λ ch n₂ (k₂, l₂).
        returning _ _ _ _
          (W.declares_exchange ch exchange "topic" true n₂ l₂
            (Agrees-eq (k₂.exchanges exchange ∙ k₁.exchanges exchange) free.exchanges))
          λ _ n₃ (x₃, q₃, b₃, r₃, l₃).
            returning _ _ _ _
              (W.declares_queue ch queue true n₃ l₃
                (Agrees-eq (q₃ queue ∙ k₂.queues queue ∙ k₁.queues queue) free.queues))
              λ _ n₄ (x₄, q₄, r₄, l₄).
                returning _ _ _ _
                  (W.binds ch queue exchange "#" n₄ true ("topic", true) l₄ q₄ (x₄ exchange ∙ x₃))
                  λ _ n₅ (x₅, b₅, r₅, l₅).
                    returning _ _ _ _ (W.limits ch prefetch n₅ l₅) λ _ n₆ (k₆, l₆).
                      let (_, n₇, e₇, k₇) = W.consumes ch queue n₆ l₆ in
                      (
                        tt,
                        n₇,
                        e₇,
                        (
                          record {
                            declared =
                                k₇.exchanges exchange
                                ∙ k₆.exchanges exchange
                                ∙ x₅ exchange
                                ∙ x₄ exchange
                                ∙ x₃;
                            everything =
                                k₇.bindings queue exchange "#"
                                ∙ k₆.bindings queue exchange "#"
                                ∙ b₅;
                          },
                          k₇.messages queue
                              ∙ k₆.messages queue
                              ∙ r₅ queue
                              ∙ r₄ queue
                              ∙ r₃ queue
                              ∙ k₂.messages queue
                              ∙ k₁.messages queue,
                        ),
                      )
