-- ===== src/Services/Transaction.antt =====
-- `SqlAlchemyUnitOfWork`, and the two helpers that `CarService` and `RentalService` share:
-- `_transaction` and `_publish`.
use drive_now.Database.{Database}
use drive_now.Messaging.{Publisher, Event, Sent, sent}
use drive_now.Messaging
use drive_now.Action.{
  Action, Result, World, ok, raised, ◌>>=◌, ◌>>◌, pure, finish, write_line, publish_failed,
}

module _ {D : Database} {P : Publisher} where
  abbrev pub commit : Action D P (Unit {0})
  commit w = finish (D.commit w.session) w

  abbrev pub rollback : World D P → World D P
  rollback w = record w { session = D.rollback w.session }

  -- `except Exception: rollback(); raise`
  abbrev pub or_rollback : {A : Type 0} → Result A × World D P → Result A × World D P
  or_rollback (ok a, w) = (ok a, w)
  or_rollback (raised e, w) = (raised e, rollback w)

  unfoldable pub transaction : {A : Type 0} → Action D P A → Action D P A
  transaction body w = or_rollback ((do a ← body; commit; pure a) w)

  abbrev pub or_log : Event → World D P → Sent × P.State → Result (Unit {0}) × World D P
  or_log event w (sent, p) = (ok tt, record w { publisher = p })
  or_log event w (Messaging.raised e, p) =
      write_line (publish_failed event.event_type) (record w { publisher = p })

  -- Best effort: no exception of the publisher leaves this.
  unfoldable pub publish : Event → Action D P (Unit {0})
  publish event w = or_log event w (P.publish event w.publisher)
