-- ===== src/Tests/Upgrade.antt =====
-- A run of env.py on a database in memory that has no version yet.
use drive_now.Base.{ℕ, ◌+◌, ◌-◌, refl, Bool, true, false, Option, none, some, List, [], arith}
use drive_now.Process.{Ended}
use drive_now.Migrations.Runs.{Alembic, Store, to_head, run_env}
use drive_now.Migrations.Runs.Atomic.{
  Observed, Spares, Migrates, IsAlembic, Settled, run_env-Settled,
}
use drive_now.Tests.Platform.{stack}

record Running : Type 0 where
  stored : Store stack
  working : Store stack
  connections : ℕ
  app_loggers : Bool
  option : Option (List ℕ)

abbrev migrated : Running → Option (Store stack) → Ended × Running
migrated s none = (Ended.raised, s)
migrated s (some st) = (Ended.returned, record s { working = st })

abbrev local_alembic : Alembic
local_alembic = record {
  State = Running;
  has_config_file = λ s. true;
  file_config = λ off s. s;
  get_main_option = λ s. s.option;
  set_main_option = λ url s. record s { option = some url };
  is_offline_mode = λ s. false;
  configure = λ o s. s;
  connect = λ s. (Ended.returned, record s { connections = s.connections + 1 });
  close = λ s. record s { connections = s.connections - 1 };
  begin = λ s. record s { working = s.stored };
  commit = λ s. (Ended.returned, record s { stored = s.working });
  rollback = λ s. s;
  run_migrations = λ s. migrated s (to_head s.working);
}

abbrev observed : Observed local_alembic stack
observed = record {
  Loggers = Bool;
  stored = λ s. s.stored;
  working = λ s. s.working;
  connections = λ s. s.connections;
  loggers = λ s. s.app_loggers;
}

nothing_changed : (s : Running) → Spares observed s s
nothing_changed s = record { stored = refl; connections = refl; loggers = refl; mode = refl }

migrated-Migrates : (s : Running) (o : Option (Store stack)) → Migrates observed s o (migrated s o)
migrated-Migrates s none = (refl, nothing_changed s)
migrated-Migrates s (some st) =
    (refl, refl, record { stored = refl; connections = refl; loggers = refl; mode = refl })

local_alembic-IsAlembic : IsAlembic observed
local_alembic-IsAlembic = record {
  configures_log = nothing_changed;
  sets_option = λ url s. record { stored = refl; connections = refl; loggers = refl; mode = refl };
  configures = λ o s. nothing_changed s;
  connects = λ s. (refl, refl, refl, refl);
  closes = λ s n e. (refl, omega arith, refl);
  begins = λ s. (record { stored = refl; connections = refl; loggers = refl; mode = refl }, refl);
  migrates = λ s online. migrated-Migrates s (to_head s.working);
  commits = λ s. (refl, refl, refl);
  rolls_back = nothing_changed;
}

abbrev empty_database : Running
empty_database = record {
  stored = record { schema = []; version = none };
  working = record { schema = []; version = none };
  connections = 0;
  app_loggers = true;
  option = none;
}

run_env-Settled_example : Settled observed empty_database (run_env local_alembic [] empty_database)
run_env-Settled_example = run_env-Settled observed local_alembic-IsAlembic [] empty_database refl
