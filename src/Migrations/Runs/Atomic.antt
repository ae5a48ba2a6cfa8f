-- ===== src/Migrations/Runs/Atomic.antt =====
-- A run of env.py on a database whose DDL is transactional.
use drive_now.Base.{
  ℕ, ◌+◌, ◌≡◌, ◌⊎◌, refl, sym, ap, subst, ◌∙◌, inl, inr, false, Option, none, some, List,
  Bool-cases,
}
use drive_now.Migrations.{Op}
use drive_now.Process.{Ended}
use drive_now.Migrations.Runs.{
  Alembic, Options, Store, to_head, set_up, leave, migrate, connected, run_migrations_online,
  run_env,
}

-- What can be seen of a run: the database as it is stored and as the transaction has it, the
-- connections that are open, and the loggers that are switched on.
pub record Observed (A : Alembic) (O : Op) : Type 1 where
  pub Loggers : Type 0
  pub stored : A.State → Store O
  pub working : A.State → Store O
  pub connections : A.State → ℕ
  pub loggers : A.State → Loggers

module _ {A : Alembic} {O : Op} (B : Observed A O) where
  -- A call that leaves what is stored, the connections and the loggers alone.
  pub record Spares (s s' : A.State) : Type 0 where
    pub stored : B.stored s' ≡ B.stored s
    pub connections : B.connections s' ≡ B.connections s
    pub loggers : B.loggers s' ≡ B.loggers s
    pub mode : A.is_offline_mode s' ≡ A.is_offline_mode s

  -- How a run of the migrations ends in a transaction, by what it has to do.
  abbrev pub Migrates : A.State → Option (Store O) → Ended × A.State → Type 0
  Migrates s none (e, s') = (e ≡ Ended.raised) × Spares s s'
  Migrates s (some st) (e, s') = (e ≡ Ended.returned) × (B.working s' ≡ st) × Spares s s'

  -- A commit stores what the transaction has, or raises and stores nothing.
  abbrev pub Commits : A.State → Ended × A.State → Type 0
  Commits s (Ended.returned, s') =
      (B.stored s' ≡ B.working s)
      × (B.connections s' ≡ B.connections s)
      × (B.loggers s' ≡ B.loggers s)
  Commits s (Ended.raised, s') = Spares s s'

  abbrev pub Connects : A.State → Ended × A.State → Type 0
  Connects s (Ended.returned, s') =
      (B.stored s' ≡ B.stored s)
      × (B.connections s' ≡ B.connections s + 1)
      × (B.loggers s' ≡ B.loggers s)
      × (A.is_offline_mode s' ≡ A.is_offline_mode s)
  Connects s (Ended.raised, s') = Spares s s'

  -- The documented behaviour, online: `fileConfig` with disable_existing_loggers=False leaves the loggers on
  -- that there are, and alembic runs what leads to the head.
  pub record IsAlembic : Type 1 where
    pub configures_log : (s : A.State) → Spares s (A.file_config false s)
    pub sets_option : (url : List ℕ) (s : A.State) → Spares s (A.set_main_option url s)
    pub configures : (o : Options) (s : A.State) → Spares s (A.configure o s)
    pub connects : (s : A.State) → Connects s (A.connect s)
    pub closes :
        (s : A.State) (n : ℕ)
        → B.connections s ≡ n + 1
        → (B.stored (A.close s) ≡ B.stored s)
          × (B.connections (A.close s) ≡ n)
          × (B.loggers (A.close s) ≡ B.loggers s)
    pub begins : (s : A.State) → Spares s (A.begin s) × (B.working (A.begin s) ≡ B.stored s)
    pub migrates :
        (s : A.State)
        → A.is_offline_mode s ≡ false
        → Migrates s (to_head (B.working s)) (A.run_migrations s)
    pub commits : (s : A.State) → Commits s (A.commit s)
    pub rolls_back : (s : A.State) → Spares s (A.rollback s)

  -- How a run ends: all is done, or nothing.
  abbrev pub AllOrNothing : Store O → Ended × A.State → Type 0
  AllOrNothing st (e, s) =
      ((e ≡ Ended.returned) × (to_head st ≡ some (B.stored s)))
      ⊎ ((e ≡ Ended.raised) × (B.stored s ≡ st))

  -- The same, with the connections and the loggers as they were in `s`.
  abbrev pub Settled : A.State → Ended × A.State → Type 0
  Settled s (e, s') =
      AllOrNothing (B.stored s) (e, s')
      × (B.connections s' ≡ B.connections s)
      × (B.loggers s' ≡ B.loggers s)

leave-returned :
    (A : Alembic) (r : Ended × A.State) → r.0 ≡ Ended.returned → leave A r ≡ A.commit r.1
leave-returned A (Ended.returned, s) e = refl
leave-returned A (Ended.raised, s) e = absurd (cc)

leave-raised :
    (A : Alembic) (r : Ended × A.State)
    → r.0 ≡ Ended.raised
    → leave A r ≡ (Ended.raised, A.rollback r.1)
leave-raised A (Ended.returned, s) e = absurd (cc)
leave-raised A (Ended.raised, s) e = refl

module _ {A : Alembic} {O : Op} (B : Observed A O) where
  Spares-trans : {s s' s'' : A.State} → Spares B s s' → Spares B s' s'' → Spares B s s''
  Spares-trans p q = record {
    stored = q.stored ∙ p.stored;
    connections = q.connections ∙ p.connections;
    loggers = q.loggers ∙ p.loggers;
    mode = q.mode ∙ p.mode;
  }

  -- From a state that leaves what counts alone, a run settles as it would from the first.
  Settled-from :
      (s s' : A.State) (r : Ended × A.State) → Spares B s s' → Settled B s' r → Settled B s r
  Settled-from s s' r p (h, c, l) =
      (subst (λ st. AllOrNothing B st r) p.stored h, c ∙ p.connections, l ∙ p.loggers)

  Spares-Settled : (s s' : A.State) → Spares B s s' → Settled B s (Ended.raised, s')
  Spares-Settled s s' p = (inr (refl, p.stored), p.connections, p.loggers)

  commit-Settled :
      (s : A.State) (st : Store O) (r : Ended × A.State)
      → to_head (B.stored s) ≡ some st
      → B.working s ≡ st
      → Commits B s r
      → Settled B s r
  commit-Settled s st (Ended.returned, s') h w (p, c, l) =
      (inl (refl, h ∙ ap some (sym w ∙ sym p)), c, l)
  commit-Settled s st (Ended.raised, s') h w p = Spares-Settled s s' p

  module _ (L : IsAlembic B) where
    leave-Settled :
        (s : A.State) (o : Option (Store O)) (r : Ended × A.State)
        → to_head (B.stored s) ≡ o
        → Migrates B s o r
        → Settled B s (leave A r)
    leave-Settled s none r h (e, p) =
        rw (leave-raised A r e)
          (Spares-Settled s (A.rollback r.1) (Spares-trans p (L.rolls_back r.1)))
    leave-Settled s (some st) r h (e, w, p) = rw (leave-returned A r e) (
        Settled-from s r.1 (A.commit r.1) p (
          commit-Settled r.1 st (A.commit r.1) (ap (λ st. to_head st) p.stored ∙ h) w
            (L.commits r.1)))

    migrate-Settled : (s : A.State) → A.is_offline_mode s ≡ false → Settled B s (migrate A s)
    migrate-Settled s online =
        let (p, w) = L.begins s in
        Settled-from s (A.begin s) (migrate A s) p (
          leave-Settled (A.begin s) (to_head (B.working (A.begin s))) (A.run_migrations (A.begin s))
            (ap (λ st. to_head st) (p.stored ∙ sym w)) (L.migrates (A.begin s) (p.mode ∙ online)))

    close-Settled :
        (s s' : A.State) (r : Ended × A.State)
        → Connects B s (Ended.returned, s')
        → Settled B s' r
        → Settled B s (r.0, A.close r.1)
    close-Settled s s' r (p, c, l, _) (h, c', l') =
        let (p', c'', l'') = L.closes r.1 (B.connections s) (c' ∙ c) in
        (
          elim h [
            | inl (e, t) ↦ inl (e, ap (λ st. to_head st) (sym p) ∙ t ∙ ap some (sym p'))
            | inr (e, t) ↦ inr (e, p' ∙ t ∙ p)
          ],
          c'',
          l'' ∙ l' ∙ l,
        )

    connected-Settled :
        (s : A.State) (r : Ended × A.State)
        → A.is_offline_mode s ≡ false
        → Connects B s r
        → Settled B s (connected A r)
    connected-Settled s (Ended.raised, s') online p = Spares-Settled s s' p
    connected-Settled s (Ended.returned, s') online p =
        let configured = L.configures _ s' in
        close-Settled s s' _ p
          (Settled-from s' _ _ configured (migrate-Settled _ (configured.mode ∙ p.3 ∙ online)))

    set_up-Spares : (url : List ℕ) (s : A.State) → Spares B s (set_up A url s)
    set_up-Spares url s = elim (Bool-cases (A.has_config_file s)) [
      | inl x ↦ rw (x, set_up) (Spares-trans (L.configures_log s) (L.sets_option _ _))
      | inr x ↦ rw (x, set_up) (L.sets_option _ s)
    ]

    -- If alembic and a database with transactional DDL work as documented, an online run of env.py
    -- ends in one of two ways: it returns, and the stored database has been brought to the head, by
    -- the migration or as it was there, or it raises, and the stored database is what it was. In
    -- both cases the connections and the loggers of the process are what they were.
    pub run_env-Settled :
        (url : List ℕ) (s : A.State) → A.is_offline_mode s ≡ false → Settled B s (run_env A url s)
    unfolding run_env run_migrations_online
    run_env-Settled url s online =
        let s' = set_up A url s in
        let p = set_up-Spares url s in
        rw (p.mode ∙ online) (
          Settled-from s s' _ p
            (connected-Settled s' (A.connect s') (p.mode ∙ online) (L.connects s')))
