-- ===== src/Refinement.antt =====
-- How a method of a service relates to its promise in `Fleet`: the transaction, and the event and the
-- log line after it.
mod Settling
pub mod Rentals
pub mod Cars
pub mod Total
pub use Settling.{Admits, Keeps-Admits, IsQuiet, Ends, Ends-step, Settles, transaction-Settles}
use mathlib.Core.Path.{subst₂}
use drive_now.Base.{◌≡◌, refl, sym, ap, subst, inl, inr, ◌∙◌, Option, none, some, List, ◌∷◌}
use drive_now.Models.Tables.{Tables, Satisfies}
use drive_now.Database.{Database, IsDatabase, IsUp, Done, IsClean, settled}
use drive_now.Action.Rules.{done≢failed}
use drive_now.Messaging.{Publisher, Event, Sent, sent}
use drive_now.Messaging
use drive_now.Action.{
  Action, Result, ok, raised, Exception, domain, database, World, resume, write_line, LogLine,
  publish_failed, ◌>>=◌, ◌>>◌, pure, finish,
}
use drive_now.Services.Transaction.{transaction, or_rollback, commit, rollback, publish, or_log}
use drive_now.Fleet.{Verdict, accepts, refuses}
use drive_now.Fleet.Invariant.{Keeps}

-- The lines of the log after a publish: one more if it raised.
abbrev pub noted : Event → Sent → List LogLine → List LogLine
noted event sent lines = lines
noted event (Messaging.raised e) lines = publish_failed event.event_type ∷ lines

-- What a method tells the outside world: nothing, or one line of the log and one event.
abbrev pub Report : Type 0
Report = Option (LogLine × Event)

module _ {D : Database} {P : Publisher} where
  abbrev pub Reports : Report → World D P → World D P → Type 0
  Reports none w₀ w = IsQuiet w₀ w
  Reports (some (line, event)) w₀ w =
      (w.publisher ≡ (P.publish event w₀.publisher).1)
      × (w.log ≡ noted event (P.publish event w₀.publisher).0 (line ∷ w₀.log))

  abbrev pub reporting : {B : Type 0} → Report → B → Action D P B
  reporting none b = pure b
  reporting (some (line, event)) b = do write_line line; publish event; pure b

  -- How a method ends that began between transactions, at the tables `t`. Where it returns `b`, its
  -- promise was to accept: `b` is the promised result, the promised tables are stored, and exactly the
  -- report was made, whether or not the publisher raised. Where it raises a domain error, that is the
  -- one promised. Where it raises at all, the tables are as they were and nothing was reported. In each
  -- case the session is again between transactions.
  abbrev pub Fulfils :
      {A B : Type 0}
      → Type 0
      → Tables
      → Verdict A
      → (A → B)
      → (A → Report)
      → World D P
      → Result B × World D P
      → Type 0
  Fulfils {A = A} M t v out report w₀ (ok b, w) =
      (a : A) × (t' : Tables) × (v ≡ accepts a t')
      × (b ≡ out a)
      × Satisfies t'
      × IsClean t' (D.view w.session)
      × Reports (report a) w₀ w
  Fulfils M t v out report w₀ (raised (domain e), w) =
      (v ≡ refuses e) × IsClean t (D.view w.session) × IsQuiet w₀ w
  Fulfils M t v out report w₀ (raised (database e), w) =
      IsClean t (D.view w.session) × IsQuiet w₀ w × (M → ¬ IsUp D)

  module _ {A B : Type 0} (M : Type 0) (t : Tables) (v : Verdict A) (out : A → B)
      (report : A → Report) where
    published-Fulfils :
        (w₀ : World D P) (a : A) (w : World D P) (line : LogLine) (event : Event)
        → report a ≡ some (line, event)
        → Settles M t v w₀ (ok a, w)
        → (x : Sent × P.State) → P.publish event w₀.publisher ≡ x
        → Fulfils M t v out report w₀
            (resume (or_log event (record w { log = line ∷ w.log }) x) (λ _. pure (out a)))
    unfolding resume
    published-Fulfils w₀ a w line event e (t', p, rows, clean, q) (sent, st) f =
        (a, t', p, refl, rows, clean, rw (e, f) (refl, ap (◌∷◌ line) q.1))
    published-Fulfils w₀ a w line event e (t', p, rows, clean, q) (Messaging.raised x, st) f = (
      a,
      t',
      p,
      refl,
      rows,
      clean,
      rw (e, f) (refl, ap (λ l. publish_failed event.event_type ∷ line ∷ l) q.1),
    )

    reported-Fulfils :
        (w₀ : World D P) (a : A) (w : World D P) (r : Report)
        → report a ≡ r
        → Settles M t v w₀ (ok a, w)
        → Fulfils M t v out report w₀ (reporting r (out a) w)
    unfolding publish resume
    reported-Fulfils w₀ a w none e (t', p, rows, clean, q) = (a, t', p, refl, rows, clean, rw e q)
    reported-Fulfils w₀ a w (some (line, event)) e h =
        published-Fulfils w₀ a w line event e h (P.publish event w.publisher)
          (ap (P.publish event) (sym h.4.0))

    resumed-Fulfils :
        (w₀ : World D P) (x : Result A × World D P) (next : A → Action D P B)
        → ((a : A) → next a ≡ reporting (report a) (out a))
        → Settles M t v w₀ x
        → Fulfils M t v out report w₀ (resume x next)
    unfolding resume
    resumed-Fulfils w₀ (ok a, w) next same h =
        rw (same a) (reported-Fulfils w₀ a w (report a) refl h)
    resumed-Fulfils w₀ (raised (domain e), w) next same h = h
    resumed-Fulfils w₀ (raised (database e), w) next same h = h

    -- A method runs a transaction, and reports what that returned.
    pub method-Fulfils :
        IsDatabase D
        → (body : Action D P A) (next : A → Action D P B) (w : World D P)
        → ((a : A) → next a ≡ reporting (report a) (out a))
        → (M → Admits v)
        → Ends M t v w (body w)
        → Fulfils M t v out report w ((transaction body >>= next) w)
    method-Fulfils L body next w same admits h =
        resumed-Fulfils w (transaction body w) next same
          (transaction-Settles L M t v body w admits h)
