-- ===== src/Refinement/Rentals.antt =====
-- `RentalService`: what each method reports, and how it relates to its promise.
mod Status
mod Registering
mod Ending
use mathlib.Core.List.{append-nil}
use drive_now.Base.{
  ℕ, ◌≤◌, ◌≡◌, subst, refl, inl, inr, none, some, List, [], ◌∷◌, ◌++◌, arith, ◌==◌, ltb, Bool-cases,
  Option-cases,
}
use drive_now.Models.{CarStatus, available, in_use, status_eq, Car, Rental}
use drive_now.Models.Tables.{
  Tables, Change, apply_all, Satisfies, update_car, update_rental, put_rental, find_rental,
  find_car,
}
use drive_now.Database.{Database, IsDatabase, IsClean, at, clean-at}
use drive_now.Messaging.{Publisher, int}
use drive_now.Action.{
  ok, raised, domain, World, resume, car_lock, rental_lock, rental_started, rental_ended,
}
use drive_now.Action.Rules.{at-assign, stored}
use drive_now.Schemas.{RentalCreate}
use drive_now.Repositories.Calls.{add_rental-Writes, update_car-Writes, update_rental-Writes}
use drive_now.Repositories.Cars
use drive_now.Repositories.Cars.{find_live}
use drive_now.Repositories.Rentals
use drive_now.Repositories.Rentals.{active_of}
use drive_now.Services.Rentals.{
  set_status, start_rental, lend, register_body, close_rental, take_back, end_body, new_rental,
  rental_event, register_rental, end_rental,
}
use drive_now.Services.Errors.{car_not_found}
use drive_now.Fleet
use drive_now.Fleet.{accepts}
use drive_now.Fleet.Consistent.{
  IsConsistent, put_status-Satisfies, rented-Satisfies, returned-Satisfies,
}
use drive_now.Fleet.Invariant.{rent-Keeps, finish-Keeps, found_car}
use drive_now.Repositories.Lookup.{active_of-eq-none}
use drive_now.Models.Tables.Laws.{find_rental_own_key}
use drive_now.Refinement.{Ends, Ends-step, Fulfils, Report, method-Fulfils, Keeps-Admits}
pub use Registering.{CanRegister}
use drive_now.Refinement.Rentals.Registering.{new_rental_id, register_body-Ends}
use drive_now.Refinement.Rentals.Ending.{end_body-Ends}

abbrev pub started_report : Rental × Car → Report
started_report (r, car) = some (
  rental_started r.id car.id r.start_date r.end_date,
  record {
    event_type = "rental.started";
    payload = ("rental_id", int r.id) ∷ ("car_id", int car.id) ∷ [];
  },
)

abbrev pub ended_report : Rental × Car → Report
ended_report (r, car) = some (
  rental_ended r.id car.id r.returned_date,
  record {
    event_type = "rental.ended";
    payload = ("rental_id", int r.id) ∷ ("car_id", int car.id) ∷ [];
  },
)

module _ {D : Database} {P : Publisher} (L : IsDatabase D) where
  -- From a session between transactions, `register_rental` returns the rental that `Fleet.register`
  -- promises, with the promised tables stored, or raises the error that it promises, or raises an
  -- error of the database; the last cannot happen when the connection is up, the tables are
  -- consistent and the term does not end before it starts. A return has written one line and
  -- published "rental.started", or logged that publishing failed; a raise has stored, written and
  -- published nothing.
  pub register_rental-Fulfils :
      (today : ℕ) (dto : RentalCreate) (t : Tables) (w : World D P)
      → IsClean t (D.view w.session)
      → Fulfils
          (CanRegister dto t)
          t
          (Fleet.register (D.view w.session).now (D.next_rental_id w.session) today dto t)
          (λ both. both.0)
          started_report
          w
          (register_rental today dto w)
  unfolding register_rental Fleet.register resume
  register_rental-Fulfils today dto t w clean = elim (Bool-cases (dto.start_date == today)) [
    | inl now ↦
        rw (now, register_rental, Fleet.register)
          (method-Fulfils (CanRegister dto t) t _ (λ both. both.0) started_report L
            (register_body dto) _ w (λ both. refl)
            (λ m.
              Keeps-Admits _ (rent-Keeps _ _ dto t m.0 (new_rental_id L w (clean-at clean)) m.1))
            (register_body-Ends L dto t w (clean-at clean)))
    | inr later ↦ rw (later, register_rental, Fleet.register) (refl, clean, (refl, refl))
  ]

  -- From a session between transactions, `end_rental` returns the rental that `Fleet.finish`
  -- promises, with the promised tables stored, or raises the error that it promises, or raises an
  -- error of the database; the last cannot happen when the connection is up and the tables are
  -- consistent. A return has written one line and published "rental.ended", or logged that
  -- publishing failed; a raise has stored, written and published nothing.
  pub end_rental-Fulfils :
      (today rental_id : ℕ) (t : Tables) (w : World D P)
      → IsClean t (D.view w.session)
      → Fulfils
          (IsConsistent t)
          t
          (Fleet.finish (D.view w.session).now today rental_id t)
          (λ both. both.0)
          ended_report
          w
          (end_rental today rental_id w)
  unfolding end_rental
  end_rental-Fulfils today rental_id t w clean =
      method-Fulfils (IsConsistent t) t _ (λ both. both.0) ended_report L (end_body today rental_id)
        _ w (λ both. refl) (λ m. Keeps-Admits _ (finish-Keeps _ today rental_id t m))
        (end_body-Ends L today rental_id t w (clean-at clean))
