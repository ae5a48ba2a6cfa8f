-- ===== src/Interleaving/Steps.antt =====
-- The steps of overlapping transactions. `SELECT ... FOR UPDATE` of app/repositories waits until no
-- other transaction holds the row, as PostgreSQL documents; a lock is held to the transaction's end.
use drive_now.Base.{ℕ, ◌≡◌, ◌≢◌, ◌||◌, true, some, ◌==◌, if◌then◌else◌}
use drive_now.Models.Tables.{Tables, apply_all}
use drive_now.Interleaving.Points.{
  Point, ready, committed, aborted, holds_car, holds_rental, wants_car, wants_rental, is_running,
  is_written,
}
use drive_now.Interleaving.Statements.{react}
use drive_now.Interleaving.Writes.{Job, changes}

-- The committed tables, and where each transaction stands.
pub record System : Type 0 where
  pub tables : Tables
  pub point : ℕ → Point

abbrev pub move : (ℕ → Point) → ℕ → Point → ℕ → Point
move f i p j = if i == j then p else f j

-- No other transaction holds what the next statement of `i` asks for.
abbrev pub Granted : (ℕ → Job) → System → ℕ → Type 0
Granted env s i =
    ((c j : ℕ) → wants_car (env i).call (s.point i) ≡ some c → holds_car (s.point j) ≢ some c)
    × ((r j : ℕ)
        → wants_rental (env i).call (s.point i) ≡ some r
        → holds_rental (s.point j) ≢ some r)

pub data Step (env : ℕ → Job) (s : System) : System → Type 0 where
  acts :
      (i : ℕ)
      → is_running (s.point i) ≡ true
      → Granted env s i
      → Step env s (record s { point = move s.point i (react (env i).call s.tables (s.point i)) })
  commits :
      (i : ℕ)
      → is_written (s.point i) ≡ true
      → Step env s (record {
        tables = apply_all (env i).now (changes (env i) (s.point i)) s.tables;
        point = move s.point i committed;
      })
  -- an error of the database: the transaction is rolled back
  aborts :
      (i : ℕ)
      → is_running (s.point i) || is_written (s.point i) ≡ true
      → Step env s (record s { point = move s.point i aborted })

-- What can be reached from the tables `t` by the transactions of `env`.
pub data Reach (env : ℕ → Job) (t : Tables) : System → Type 0 where
  start : Reach env t (record { tables = t; point = λ _. ready })
  later : {s s' : System} → Reach env t s → Step env s s' → Reach env t s'
