-- ===== src/Action.antt =====
-- A method call of a service: it works on the session, the publisher and the log, and it returns or
-- raises. What was done before a raise stays done, so the world comes back beside the exception too.
pub mod Rules
use drive_now.Base.{ℕ, String, Bool, Option, none, some, List, [], ◌∷◌, ◌++◌}
use drive_now.Models.Tables.{Tables, Change}
use drive_now.Database.{Database, DbError, Done, done, failed}
use drive_now.Messaging.{Publisher}
use drive_now.Services.Errors.{DomainError}

pub data Exception : Type 0 where
  domain : DomainError → Exception
  database : DbError → Exception

pub data Result (A : Type 0) : Type 0 where
  ok : A → Result A
  raised : Exception → Result A

-- A row lock of the running transaction, `SELECT ... FOR UPDATE`.
pub data Lock : Type 0 where
  car_lock : ℕ → Lock
  rental_lock : ℕ → Lock

-- The log lines of the services, with the values that they format.
pub data LogLine : Type 0 where
  car_added : (car_id : ℕ) (model : String) (year : ℕ) → LogLine
  car_updated : (car_id : ℕ) (changed : List String) → LogLine
  car_retired : (car_id : ℕ) → LogLine
  rental_started : (rental_id car_id start end : ℕ) → LogLine
  rental_ended : (rental_id car_id : ℕ) (returned : Option ℕ) → LogLine
  publish_failed : (event_type : String) → LogLine

pub record World (D : Database) (P : Publisher) : Type 0 where
  pub session : D.Session
  pub publisher : P.State
  -- the row locks that were asked for, the latest first
  pub locks : List Lock
  -- the lines written, the latest first
  pub log : List LogLine

module _ (D : Database) (P : Publisher) where
  abbrev pub Action : Type 0 → Type 0
  Action A = World D P → Result A × World D P

module _ {D : Database} {P : Publisher} where
  -- What follows a call: nothing, if it raised.
  unfoldable pub resume :
      {A B : Type 0} → Result A × World D P → (A → Action D P B) → Result B × World D P
  resume (ok a, w) f = f a w
  resume (raised e, w) f = (raised e, w)

  infixl 5 ◌>>=◌ ◌>>◌
  abbrev pub ◌>>=◌ : {A B : Type 0} → Action D P A → (A → Action D P B) → Action D P B
  ◌>>=◌ m f w = resume (m w) f

  abbrev pub ◌>>◌ : {A B : Type 0} → Action D P A → Action D P B → Action D P B
  m >> k = m >>= λ _. k

  abbrev pub pure : {A : Type 0} → A → Action D P A
  pure a w = (ok a, w)

  -- `raise`
  abbrev pub throw : {A : Type 0} → DomainError → Action D P A
  throw e w = (raised (domain e), w)

  -- A query: it reads the rows that the transaction sees.
  abbrev pub select : {A : Type 0} → (Tables → A) → Action D P A
  select q w = (ok (q (D.view w.session).visible), w)

  abbrev pub now : Action D P ℕ
  now w = (ok (D.view w.session).now, w)

  abbrev pub lock : Lock → Action D P (Unit {0})
  lock l w = (ok tt, record w { locks = l ∷ w.locks })

  abbrev pub write_line : LogLine → Action D P (Unit {0})
  write_line l w = (ok tt, record w { log = l ∷ w.log })

  abbrev pub assign : Change → Action D P (Unit {0})
  assign c w = (ok tt, record w { session = D.assign c w.session })

  abbrev pub finish : Done × D.Session → Action D P (Unit {0})
  finish (done, s) w = (ok tt, record w { session = s })
  finish (failed e, s) w = (raised (database e), record w { session = s })

  abbrev pub flush : Action D P (Unit {0})
  flush w = finish (D.flush w.session) w
