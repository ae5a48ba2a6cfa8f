-- ===== src/Process/Shutdown.antt =====
-- The lifespan of the application: its start, and what a shutdown leaves.
use drive_now.Base.{
  ◌≡◌, refl, ◌∙◌, inl, inr, Bool, true, false, none, some, List, [], arith, ◌&&◌, ◌||◌,
  if◌then◌else◌, Bool-cases,
}
use drive_now.Messaging.Rabbit.{Pika, close}
use drive_now.Process.{
  Environ, Settings, EventPublisher, null_publisher, rabbitmq_publisher, Process, Disk, Ended,
  returned, raised, get_event_publisher, close_publisher, configure_logging,
}
use drive_now.Process.Running.{Use, perform_all, shut_down, serving, lifespan}
use drive_now.Process.Wiring.{
  broker, chosen, IsWired, publisher-IsWired, logging-IsWired, set_up-wired, perform_all_kept,
}

-- A publisher that holds neither a connection nor a channel.
abbrev pub IsClosed : {K : Pika} → EventPublisher K → Type 0
IsClosed (null_publisher dropped) = Unit {0}
IsClosed (rabbitmq_publisher url k) = (k.conn ≡ none) × (k.channel ≡ none)

close_publisher-IsClosed : {K : Pika} (h : EventPublisher K) → IsClosed (close_publisher h)
unfolding close
close_publisher-IsClosed (null_publisher dropped) = tt
close_publisher-IsClosed (rabbitmq_publisher url k) = (refl, refl)

close_publisher-broker : {K : Pika} (h : EventPublisher K) → broker (close_publisher h) ≡ broker h
close_publisher-broker (null_publisher dropped) = refl
close_publisher-broker (rabbitmq_publisher url k) = refl

-- The set-up of the log fails if it cannot make its directory or open its file.
abbrev pub can_log : {K : Pika} → Disk → Process K → Bool
can_log disk p = p.configured || disk.makes_directory && disk.opens_file

-- A process whose publisher, the one that the settings choose, is closed.
abbrev pub IsShutDown : {K : Pika} → Settings → Process K → Type 0
IsShutDown {K = K} s p =
    (h : EventPublisher K) × (p.publisher ≡ some h) × (broker h ≡ chosen s) × IsClosed h

module _ {K : Pika} (s : Settings) where
  configure-can :
      (disk : Disk) (p : Process K)
      → can_log disk p ≡ true
      → (configure_logging disk s p).0 ≡ returned
  unfolding configure_logging
  configure-can disk p h = ground arith

  configure-cannot :
      (disk : Disk) (p : Process K)
      → can_log disk p ≡ false
      → configure_logging disk s p ≡ (raised, p)
  unfolding configure_logging
  configure-cannot disk p h = ground arith

  shut_down-IsShutDown :
      (env : Environ) (e : Ended) (p : Process K)
      → IsWired s [] p
      → let (e', p') = shut_down env (e, p) in (e' ≡ e) × IsWired s [] p' × IsShutDown s p'
  shut_down-IsShutDown env e p w =
      let (b, _, w₁) = publisher-IsWired s env p w in
      let h = (get_event_publisher env p).0 in
      let same = close_publisher-broker h ∙ b in
      (
        refl,
        record {
          settings = w₁.settings;
          publisher = same;
          engine = w₁.engine;
          installed = w₁.installed;
          open_sessions = w₁.open_sessions;
        },
        (close_publisher h, refl, same, close_publisher-IsClosed h),
      )

  serving-returned :
      (env : Environ) (body : Process K → Ended × Process K) (r : Ended × Process K)
      → r.0 ≡ returned
      → serving env body r ≡ shut_down env (body r.1)
  serving-returned env body (returned, p) h = refl
  serving-returned env body (raised, p) h = absurd (cc)

  -- If the log can be set up, the lifespan of a wired process ends as what runs in it, and leaves
  -- it wired, with the publisher that the settings choose, which holds neither a connection nor a
  -- channel; if not, it raises, and the process is unchanged.
  pub lifespan-closes :
      (env : Environ) (disk : Disk) (us : List (Environ × Use K)) (e : Ended) (p : Process K)
      → IsWired s [] p
      → let (e', p') = lifespan env disk (λ p. (e, perform_all us p)) p in
        if can_log disk p
        then (e' ≡ e) × IsWired s [] p' × IsShutDown s p'
        else (e' ≡ raised) × (p' ≡ p)
  unfolding lifespan
  lifespan-closes env disk us e p w = elim (Bool-cases (can_log disk p)) [
    | inr h ↦
        simp (h, lifespan, set_up-wired s env disk p w.settings, configure-cannot disk p h)
          (refl, refl)
    | inl h ↦
        let body : Process K → Ended × Process K = λ p. (e, perform_all us p) in
        let q = (configure_logging disk s p).1 in
        simp
          (
            h,
            lifespan,
            set_up-wired s env disk p w.settings,
            serving-returned env body (configure_logging disk s p) (configure-can disk p h),
          )
          (shut_down-IsShutDown env e (perform_all us q)
            (perform_all_kept s us q (logging-IsWired s disk p w)))
  ]
