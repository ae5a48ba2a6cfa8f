-- ===== src/Process/Wiring.antt =====
-- What holds in a process once its settings are read, whatever is asked of it afterwards.
use drive_now.Base.{
  ℕ, ◌≡◌, refl, ap, subst, ◌∙◌, inl, inr, String, Option, none, some, List, [], ◌∷◌, arith,
  if◌then◌else◌, Bool-cases, Option-cases,
}
use drive_now.Messaging.{Event}
use drive_now.Messaging.Rabbit.{Pika}
use drive_now.Process.{
  Environ, Settings, read_settings, EventPublisher, null_publisher, rabbitmq_publisher, Process,
  new_engine, handlers, Disk, Ended, Service, remove, get_settings, get_engine, new_publisher,
  get_event_publisher, publish_event, configure_logging, new_service, publish_all, open_session,
  request,
}
use drive_now.Process.Running.{
  Use, asks_settings, asks_engine, asks_publisher, sets_up_logging, requests, set_up_logging,
  perform, perform_all, started,
}

-- The broker that a publisher sends to.
abbrev pub broker : {K : Pika} → EventPublisher K → Option String
broker (null_publisher dropped) = none
broker (rabbitmq_publisher url k) = some url

abbrev pub chosen : Settings → Option String
chosen s = if s.enable_message_queue then some s.rabbitmq_url else none

abbrev pub IfSome : {A : Type 0} → Option A → (A → Type 0) → Type 0
IfSome none f = Unit {0}
IfSome (some a) f = f a

-- A process that lives by the settings `s`, with these sessions open.
pub record IsWired {K : Pika} (s : Settings) (sessions : List ℕ) (p : Process K) : Type 0 where
  pub settings : p.settings ≡ some s
  pub publisher : IfSome p.publisher (λ h. broker h ≡ chosen s)
  pub engine : IfSome p.engine (λ e. e ≡ new_engine s)
  -- the handlers are installed once or not at all
  pub installed : p.installed ≡ (if p.configured then handlers s ∷ [] else [])
  pub open_sessions : p.open_sessions ≡ sessions

publisher-chosen :
    (K : Pika) (s : Settings) (network : K.Network)
    → broker (new_publisher {K = K} s network) ≡ chosen s
publisher-chosen K s network = elim (Bool-cases s.enable_message_queue) [
  | inl h ↦ rw h refl
  | inr h ↦ rw h refl
]

module _ {K : Pika} (s : Settings) where
  settings-wired :
      (env : Environ) (p : Process K) → p.settings ≡ some s → get_settings env p ≡ (s, p)
  unfolding get_settings
  settings-wired env p h = rw h refl

  publish-broker :
      (event : Event) (h : EventPublisher K) → broker (publish_event event h).1 ≡ broker h
  publish-broker event (null_publisher dropped) = refl
  publish-broker event (rabbitmq_publisher url k) = refl

  publish_all-broker :
      (events : List Event) (h : EventPublisher K) → broker (publish_all events h) ≡ broker h
  publish_all-broker [] h = refl
  publish_all-broker (event ∷ rest) h =
      publish_all-broker rest (publish_event event h).1 ∙ publish-broker event h

module _ {K : Pika} (s : Settings) {is : List ℕ} where
  engine-IsWired :
      (env : Environ) (p : Process K) → IsWired s is p → IsWired s is (get_engine env p).1
  unfolding get_engine
  engine-IsWired env p w = elim (Option-cases p.engine) [
    | inr (e, x) ↦ simp (x, get_engine) w
    | inl x ↦
        simp (x, get_engine, settings-wired s env p w.settings)
          (record {
            settings = w.settings;
            publisher = w.publisher;
            engine = refl;
            installed = w.installed;
            open_sessions = w.open_sessions;
          })
  ]

  chosen-publisher :
      (h : EventPublisher K) (p : Process K)
      → IsWired s is p
      → p.publisher ≡ some h
      → broker h ≡ chosen s
  chosen-publisher h p w x = subst (λ o. IfSome o (λ h. broker h ≡ chosen s)) x w.publisher

  -- The publisher of a wired process is there after the call, and the process is wired.
  pub publisher-IsWired :
      (env : Environ) (p : Process K)
      → IsWired s is p
      → let (h, p') = get_event_publisher env p in
        (broker h ≡ chosen s) × (p'.publisher ≡ some h) × IsWired s is p'
  unfolding get_event_publisher
  publisher-IsWired env p w = elim (Option-cases p.publisher) [
    | inr (h, x) ↦ simp (x, get_event_publisher) (chosen-publisher h p w x, refl, w)
    | inl x ↦
        simp (x, get_event_publisher, settings-wired s env p w.settings)
          (
            publisher-chosen K s p.network,
            refl,
            record {
              settings = w.settings;
              publisher = publisher-chosen K s p.network;
              engine = w.engine;
              installed = w.installed;
              open_sessions = w.open_sessions;
            },
          )
  ]

  pub logging-IsWired :
      (disk : Disk) (p : Process K) → IsWired s is p → IsWired s is (configure_logging disk s p).1
  unfolding configure_logging
  logging-IsWired disk p w = elim (Bool-cases p.configured) [
    | inl x ↦ simp x w
    | inr x ↦ elim (Bool-cases disk.makes_directory) [
      | inr y ↦ simp (x, y) w
      | inl y ↦ elim (Bool-cases disk.opens_file) [
        | inr z ↦ simp (x, y, z) w
        | inl z ↦
            simp (x, y, z)
              (record {
                settings = w.settings;
                publisher = w.publisher;
                engine = w.engine;
                installed = ground (arith, w.installed);
                open_sessions = w.open_sessions;
              })
      ]
    ]
  ]

module _ {K : Pika} (s : Settings) where
  request-IsWired :
      (env : Environ) (method : Service K → Ended × List Event) (p : Process K)
      → IsWired s [] p
      → IsWired s [] (request env method p).1
  unfolding request get_event_publisher
  request-IsWired env method p w =
      let (session, p₁) = open_session p in
      let h = (get_event_publisher env p₁).0 in
      let (b, _, w₂) = publisher-IsWired s env p₁ (record {
        settings = w.settings;
        publisher = w.publisher;
        engine = w.engine;
        installed = w.installed;
        open_sessions = ap (λ is. p.opened ∷ is) w.open_sessions;
      }) in
      record {
        settings = w₂.settings;
        publisher = publish_all-broker s (method (new_service p.opened h)).1 h ∙ b;
        engine = w₂.engine;
        installed = w₂.installed;
        open_sessions = ap (remove p.opened) w₂.open_sessions ∙ ground arith;
      }

  pub set_up-wired :
      (env : Environ) (disk : Disk) (p : Process K)
      → p.settings ≡ some s
      → set_up_logging env disk p ≡ configure_logging disk s p
  unfolding set_up_logging
  set_up-wired env disk p h = ap (λ r. configure_logging disk r.0 r.1) (settings-wired s env p h)

  perform-IsWired :
      (env : Environ) (u : Use K) (p : Process K) → IsWired s [] p → IsWired s [] (perform env u p)
  perform-IsWired env asks_settings p w = simp (settings-wired s env p w.settings, perform) w
  perform-IsWired env asks_engine p w = engine-IsWired s env p w
  perform-IsWired env asks_publisher p w = (publisher-IsWired s env p w).2
  perform-IsWired env (sets_up_logging disk) p w =
      simp (set_up-wired env disk p w.settings, perform) (logging-IsWired s disk p w)
  perform-IsWired env (requests method) p w = request-IsWired env method p w

  pub perform_all_kept :
      (us : List (Environ × Use K)) (p : Process K)
      → IsWired s [] p
      → IsWired s [] (perform_all us p)
  perform_all_kept [] p w = w
  perform_all_kept ((env, u) ∷ rest) p w =
      perform_all_kept rest (perform env u p) (perform-IsWired env u p w)

-- Once a process has read its settings, any sequence of set-ups of the log, uses of the engine and
-- the publisher, and requests keeps it wired, whatever the environment holds later: the settings
-- stay, the publisher is the one that they choose, the engine is theirs, the handlers of the log
-- are installed once or not at all, and no session stays open.
pub perform_all-IsWired :
    {K : Pika} (env : Environ) (us : List (Environ × Use K)) (network : K.Network)
    → IsWired (read_settings env) [] (perform_all us (get_settings env (started {K = K} network)).1)
unfolding get_settings
perform_all-IsWired env us network = perform_all_kept (read_settings env) us _ (record {
  settings = refl;
  publisher = tt;
  engine = tt;
  installed = refl;
  open_sessions = refl;
})
