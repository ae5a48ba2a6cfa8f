-- ===== src/Interleaving/Safety.antt =====
-- What holds in every system that overlapping transactions reach.
use drive_now.Base.{ℕ, ◌≡◌, ap, ◌∙◌, true, some, arith}
use drive_now.Models.Tables.{Tables, apply_all}
use drive_now.Services.Errors.{DomainError}
use drive_now.Fleet.Consistent.{IsConsistent}
use drive_now.Interleaving.Points.{Point, refused, holds_car, holds_rental, is_running, is_written}
use drive_now.Interleaving.Statements.{react}
use drive_now.Interleaving.Writes.{Job, changes, promise, stores, refuses}
use drive_now.Interleaving.Steps.{System, Granted, Step, acts, commits, aborts, Reach, start, later}
use drive_now.Interleaving.Atomic.{commit-stores}
use drive_now.Interleaving.Refusal.{react-refuses}
use drive_now.Interleaving.Locks.{
  holds-wants_car, wants-holds_rental, wants_rental-holds, holds_rental-holds,
}
use drive_now.Interleaving.Invariant.{
  IsWorkload, IsSafe, acts-IsSafe, aborts-IsSafe, commits-IsSafe, same_index,
}

module _ (env : ℕ → Job) (t : Tables) (w : IsWorkload env t) where
  start-IsSafe : IsSafe env (record { tables = t; point = λ _. Point.ready })
  start-IsSafe = record {
    consistent = w.consistent;
    known = λ i. tt;
    unused = λ i h. w.unused i;
    alone = λ i j c held held'. absurd (cc);
  }

  Step-IsSafe : {s s' : System} → IsSafe env s → Step env s s' → IsSafe env s'
  Step-IsSafe {s} inv (acts i running granted) = acts-IsSafe env s inv i running granted
  Step-IsSafe {s} inv (commits i written) = commits-IsSafe env t s i w inv written
  Step-IsSafe {s} inv (aborts i still) = aborts-IsSafe env s inv i still

  Reach-IsSafe : (s : System) → Reach env t s → IsSafe env s
  Reach-IsSafe s start = start-IsSafe
  Reach-IsSafe s' (later {s} r step) = Step-IsSafe (Reach-IsSafe s r) step

-- From consistent tables, for valid calls whose INSERTs draw fresh keys, the committed tables are
-- consistent in every system that the transactions reach, however their statements interleave.
pub Reach-IsConsistent :
    (env : ℕ → Job) (t : Tables) (s : System)
    → IsWorkload env t
    → Reach env t s
    → IsConsistent s.tables
Reach-IsConsistent env t s w r = (Reach-IsSafe env t w s r).consistent

-- From consistent tables, for valid calls whose INSERTs draw fresh keys, however their transactions
-- interleave: a transaction that has flushed its writes commits exactly the tables that the promise
-- of its method stores on the tables committed at that moment.
pub Reach-stores :
    (env : ℕ → Job) (t : Tables) (s : System) (i : ℕ)
    → IsWorkload env t
    → Reach env t s
    → is_written (s.point i) ≡ true
    → promise (env i) s.tables
      ≡ stores (apply_all (env i).now (changes (env i) (s.point i)) s.tables)
Reach-stores env t s i w r written =
    commit-stores (env i) (s.point i) s.tables written ((Reach-IsSafe env t w s r).known i)

-- From consistent tables, for valid calls whose INSERTs draw fresh keys, however their transactions
-- interleave: a statement that refuses its call does so with the error with which the promise of
-- its method refuses on the tables committed at that moment.
pub Reach-refuses :
    (env : ℕ → Job) (t : Tables) (s : System) (i : ℕ) (e : DomainError)
    → IsWorkload env t
    → Reach env t s
    → is_running (s.point i) ≡ true
    → react (env i).call s.tables (s.point i) ≡ refused e
    → promise (env i) s.tables ≡ refuses e
Reach-refuses env t s i e w r running x =
    react-refuses (env i) (s.point i) s.tables e running ((Reach-IsSafe env t w s r).known i) x

-- From consistent tables, for valid calls whose INSERTs draw fresh keys, however their transactions
-- interleave: no other transaction holds a lock that the next statement of a transaction that holds
-- the lock of a car asks for.
pub Reach-Granted :
    (env : ℕ → Job) (t : Tables) (s : System) (i c : ℕ)
    → IsWorkload env t
    → Reach env t s
    → holds_car (s.point i) ≡ some c
    → Granted env s i
Reach-Granted env t s i c w r held =
    let safe = Reach-IsSafe env t w s r in
    (
      (λ d j wanted taken.
          let none_wanted = holds-wants_car (env i).call (s.point i) c held in absurd (cc)),
      (λ k j wanted taken.
          let (a, there, mine) =
            wants_rental-holds s.tables (env i).call (s.point i) k (safe.known i) wanted in
          let (b, there', theirs) =
            holds_rental-holds s.tables (env j).call (s.point j) k (safe.known j) taken in
          let same_car : a.car_id ≡ b.car_id = ground arith in
          let same = same_index i j (safe.alone i j b.car_id (mine ∙ ap some same_car) theirs) in
          let nothing = wants-holds_rental (env i).call (s.point i) k wanted in
          let point : holds_rental (s.point i) ≡ holds_rental (s.point j) =
            ap (λ x. holds_rental (s.point x)) same in
          absurd (cc)),
    )

-- Exclusion.
pub Reach-alone :
    (env : ℕ → Job) (t : Tables) (s : System) (i j c : ℕ)
    → IsWorkload env t
    → Reach env t s
    → holds_car (s.point i) ≡ some c
    → holds_car (s.point j) ≡ some c
    → i ≡ j
Reach-alone env t s i j c w r held held' =
    same_index i j ((Reach-IsSafe env t w s r).alone i j c held held')
