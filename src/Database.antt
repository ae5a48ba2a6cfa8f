-- ===== src/Database.antt =====
-- What the application relies on of SQLAlchemy's `Session` and of the database behind it. Neither is
-- code of the repository, so both are a parameter: the operations in `Database`, and their documented
-- behaviour in `IsDatabase`, stated on the `View` of a session.
pub mod Reference
use drive_now.Base.{ℕ, ◌≡◌, ◌⊎◌, none, List, [], ◌∷◌, ◌++◌}
use drive_now.Models.Tables.{Tables, Change, apply_all, Satisfies, find_car, find_rental}

-- The exceptions of a flush or a commit: a violated constraint, or a connection that failed.
pub data DbError : Type 0 where
  integrity_error operational_error : DbError

pub data Done : Type 0 where
  done : Done
  failed : DbError → Done

-- The tables as they are durably stored, the tables that a SELECT of this transaction reads, the
-- changes that await a flush (the sessions are made with autoflush=False), and the transaction's
-- `now()`.
pub record View : Type 0 where
  pub committed : Tables
  pub visible : Tables
  pub pending : List Change
  pub now : ℕ

abbrev pub at : Tables → Tables → List Change → ℕ → View
at t u cs n = record { committed = t; visible = u; pending = cs; now = n }

-- What the transaction's tables are once the pending changes are written.
abbrev pub settled : View → Tables
settled v = apply_all v.now v.pending v.visible

-- A session between two transactions.
pub record IsClean (t : Tables) (v : View) : Type 0 where
  pub committed : v.committed ≡ t
  pub visible : v.visible ≡ t
  pub pending : v.pending ≡ []

pub clean-at : {t : Tables} {v : View} → IsClean t v → v ≡ at t t [] v.now
clean-at {v = v} c = λ i. at (c.committed i) (c.visible i) (c.pending i) v.now

pub record Database : Type 1 where
  pub Session : Type 0
  pub view : Session → View
  -- the primary keys that the next INSERTs take
  pub next_car_id : Session → ℕ
  pub next_rental_id : Session → ℕ
  -- `session.add`, or an assignment to an attribute of a loaded object
  pub assign : Change → Session → Session
  pub flush : Session → Done × Session
  pub commit : Session → Done × Session
  pub rollback : Session → Session

module _ (D : Database) where
  -- A flush writes the pending changes, within the constraints, or raises; then what is stored is as
  -- it was.
  abbrev pub Flushes : D.Session → Type 0
  Flushes s =
      ((s' : D.Session) × (D.flush s ≡ (done, s'))
        × (D.view s' ≡ record (D.view s) { visible = settled (D.view s); pending = [] })
        × Satisfies (settled (D.view s)))
      ⊎ ((e : DbError) × (s' : D.Session) × (D.flush s ≡ (failed e, s'))
          × ((D.view s').committed ≡ (D.view s).committed))

  -- A commit flushes, stores what the transaction sees and ends it, or raises and stores nothing.
  abbrev pub Commits : D.Session → Type 0
  Commits s =
      ((s' : D.Session) × (D.commit s ≡ (done, s'))
        × IsClean (settled (D.view s)) (D.view s')
        × Satisfies (settled (D.view s)))
      ⊎ ((e : DbError) × (s' : D.Session) × (D.commit s ≡ (failed e, s'))
          × ((D.view s').committed ≡ (D.view s).committed))

-- The documented behaviour, for a session that no other transaction interferes with.
pub record IsDatabase (D : Database) : Type 0 where
  pub assign_view :
      (c : Change) (s : D.Session)
      → D.view (D.assign c s) ≡ record (D.view s) { pending = (D.view s).pending ++ c ∷ [] }
  pub flush_view : (s : D.Session) → Flushes D s
  pub commit_view : (s : D.Session) → Commits D s
  pub rollback_view : (s : D.Session) → IsClean (D.view s).committed (D.view (D.rollback s))
  pub fresh_car : (s : D.Session) → find_car (D.next_car_id s) (D.view s).visible.cars ≡ none
  pub fresh_rental :
      (s : D.Session) → find_rental (D.next_rental_id s) (D.view s).visible.rentals ≡ none

-- The connection holds: a write that the constraints admit is carried out.
pub record IsUp (D : Database) : Type 0 where
  pub flush_done : (s : D.Session) → Satisfies (settled (D.view s)) → (D.flush s).0 ≡ done
  pub commit_done : (s : D.Session) → Satisfies (settled (D.view s)) → (D.commit s).0 ≡ done
