-- ===== src/Migrations/Runs.antt =====
-- A run of alembic/env.py, online or offline, from the set-up of the log to the end of its
-- transaction, and the place of the migration in the chain of revisions. Alembic's context and its
-- config, SQLAlchemy's engine and the database are a parameter.
pub mod Atomic
use drive_now.Base.{ℕ, ◌+◌, ◌≡◌, String, Bool, true, false, Option, none, some, List, if◌then◌else◌}
use text.Mathlib.Text.{◌==◌ as str_eq}
use drive_now.Migrations.{Op, upgrade}
use drive_now.Migrations as Migrations
use drive_now.Migrations.Env.{main_option}
use drive_now.Process.{Ended, returned, raised}

-- The keywords of `context.configure`, but `target_metadata`, which only autogenerate reads; the
-- offline mode has a URL, the online mode a connection.
pub data Target : Type 0 where
  by_url : Option (List ℕ) → Target
  by_connection : Target

pub record Options : Type 0 where
  pub target : Target
  pub literal_binds : Bool
  pub paramstyle : Option String
  pub render_as_batch : Bool
  pub compare_type : Bool

pub record Alembic : Type 1 where
  pub State : Type 0
  pub has_config_file : State → Bool
  pub file_config : (disable_existing_loggers : Bool) → State → State
  pub get_main_option : State → Option (List ℕ)
  pub set_main_option : List ℕ → State → State
  pub is_offline_mode : State → Bool
  pub configure : Options → State → State
  pub connect : State → Ended × State
  pub close : State → State
  pub begin : State → State
  pub commit : State → Ended × State
  pub rollback : State → State
  pub run_migrations : State → Ended × State

module _ (A : Alembic) where
  -- `with context.begin_transaction():`
  abbrev pub leave : Ended × A.State → Ended × A.State
  leave (Ended.returned, s) = A.commit s
  leave (Ended.raised, s) = (Ended.raised, A.rollback s)

  abbrev pub migrate : A.State → Ended × A.State
  migrate s = leave (A.run_migrations (A.begin s))

  unfoldable pub run_migrations_offline : A.State → Ended × A.State
  run_migrations_offline s = migrate (
      A.configure
        (record {
          target = by_url (A.get_main_option s);
          literal_binds = true;
          paramstyle = some "named";
          render_as_batch = true;
          compare_type = true;
        })
        s)

  -- The engine is made for one connection, which `with` closes.
  abbrev pub connected : Ended × A.State → Ended × A.State
  connected (Ended.raised, s) = (Ended.raised, s)
  connected (Ended.returned, s) =
      let (e, s') = migrate (
        A.configure
          (record {
            target = by_connection;
            literal_binds = false;
            paramstyle = none;
            render_as_batch = true;
            compare_type = true;
          })
          s) in
      (e, A.close s')

  unfoldable pub run_migrations_online : A.State → Ended × A.State
  run_migrations_online s = connected (A.connect s)

  abbrev pub set_up : (database_url : List ℕ) → A.State → A.State
  set_up database_url s =
      let s₁ = if A.has_config_file s then A.file_config false s else s in
      A.set_main_option (main_option (A.get_main_option s₁) database_url) s₁

  -- The module, from its first statement to its last.
  unfoldable pub run_env : (database_url : List ℕ) → A.State → Ended × A.State
  unfolding run_migrations_offline run_migrations_online
  run_env database_url s =
      let s' = set_up database_url s in
      if A.is_offline_mode s' then run_migrations_offline s' else run_migrations_online s'

-- `revision` and `down_revision`
abbrev pub revision : String
revision = "0001"

abbrev pub down_revision : Option String
down_revision = none

-- A database with its version table, which is empty before the first revision.
pub record Store (O : Op) : Type 0 where
  pub schema : O.Schema
  pub version : Option String

abbrev pub same_version : Option String → Option String → Bool
same_version none none = true
same_version none (some w) = false
same_version (some v) none = false
same_version (some v) (some w) = str_eq v w

abbrev pub stamped : {O : Op} → Option O.Schema → Option (Store O)
stamped none = none
stamped (some s) = some (record { schema = s; version = some revision })

-- What `alembic upgrade head` is to do: the migration, if it comes next, and nothing at the head; a
-- version that is unknown is an error.
abbrev pub to_head : {O : Op} → Store O → Option (Store O)
to_head {O} st =
    if same_version st.version (some revision)
    then some st
    else if same_version st.version down_revision
    then stamped (Migrations.run O upgrade st.schema)
    else none
