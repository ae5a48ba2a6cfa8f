-- ===== src/Lifecycle/Rentals.antt =====
-- Renting a car, over several calls of `RentalService`.
use drive_now.Base.{ℕ, ◌≤◌, ◌≡◌, ◌≢◌, ◌↔◌, sym, ◌∙◌, ap, some}
use drive_now.Models.{available, Car, Rental}
use drive_now.Models.Tables.{Tables}
use drive_now.Database.{Database, IsDatabase, IsUp, IsClean}
use drive_now.Messaging.{Publisher}
use drive_now.Action.{ok, raised, domain, World}
use drive_now.Schemas.{RentalCreate}
use drive_now.Services.Errors.{car_not_found, car_not_available, has_active_rental}
use drive_now.Services.Rentals.{register_rental, end_rental}
use drive_now.Repositories.Cars.{find_live}
use drive_now.Fleet
use drive_now.Fleet.{Verdict, accepts, refuses}
use drive_now.Fleet.Consistent.{IsConsistent}
use drive_now.Fleet.Invariant.{register-Keeps, finish-Keeps}
use drive_now.Fleet.Accepted.{register-Registered}
use drive_now.Fleet.Renting.{register-accepted, register-never_doubly}
use drive_now.Fleet.Ending.{OfRetiredCar, finish-car_not_found, finish-OfRetiredCar}
use drive_now.Refinement.Rentals.{
  register_rental-Fulfils, end_rental-Fulfils, started_report, ended_report,
}
use drive_now.Refinement.Total.{answer, register_rental-answer, end_rental-answer}
use drive_now.Lifecycle.Outcome.{answer-refuses, answer-accepts, Returned, Fulfils-Returned}

module _ {D : Database} {P : Publisher} (L : IsDatabase D) (up : IsUp D) (t : Tables)
    (w : World D P) (clean : IsClean t (D.view w.session)) (k : IsConsistent t) where
  abbrev pub registered : ℕ → RentalCreate → Verdict (Rental × Car)
  registered today dto =
      Fleet.register (D.view w.session).now (D.next_rental_id w.session) today dto t

  -- What is stored after `register_rental` has returned.
  pub registered-Returned :
      (today : ℕ) (dto : RentalCreate) (r : Rental)
      → dto.start_date ≤ dto.end_date
      → (register_rental today dto w).0 ≡ ok r
      → Returned (registered today dto) (λ both. both.0) r (register_rental today dto w).1
  registered-Returned today dto r dates e =
      Fulfils-Returned _ t _ (λ both. both.0) started_report w (register_rental today dto w) r
        (register_rental-Fulfils L today dto t w clean)
        (register-Keeps _ _ today dto t k (rw clean.visible at (L.fresh_rental w.session)) dates) e

  pub ended-Returned :
      (today rental_id : ℕ) (r : Rental)
      → (end_rental today rental_id w).0 ≡ ok r
      → Returned
          (Fleet.finish (D.view w.session).now today rental_id t)
          (λ both. both.0)
          r
          (end_rental today rental_id w).1
  ended-Returned today rental_id r e =
      Fulfils-Returned _ t _ (λ both. both.0) ended_report w (end_rental today rental_id w) r
        (end_rental-Fulfils L today rental_id t w clean) (finish-Keeps _ today rental_id t k) e

  -- With the connection up, at consistent tables between transactions: `register_rental` for a term
  -- that does not end before it starts returns a rental if and only if the term starts today and
  -- the car is live and available.
  pub register_rental-accepted :
      (today : ℕ) (dto : RentalCreate)
      → dto.start_date ≤ dto.end_date
      → ((r : Rental) × ((register_rental today dto w).0 ≡ ok r)) ↔ (
          (dto.start_date ≡ today)
          × ((car : Car) × (find_live dto.car_id t.cars ≡ some car) × (car.status ≡ available)))
  register_rental-accepted today dto dates = (
    λ both.
        let (a, t', p, _) =
          answer-accepts _ _ both.0
            (sym (register_rental-answer L up today dto t w clean k dates) ∙ both.1) in
        let (car, x, y, z, _, _, _) = register-Registered _ _ today dto t a t' p in
        (x, (car, y, z)),
    λ can. (
      _,
      register_rental-answer L up today dto t w clean k dates
          ∙ ap (answer (λ both. both.0))
              (register-accepted _ _ today dto can.1.0 t k can.0 can.1.1 can.1.2),
    ),
  )

  -- With the connection up, at consistent tables between transactions: `register_rental` with a
  -- term that does not end before it starts never raises the `CarNotAvailableError` of an available
  -- car with an active rental.
  pub register_rental-never_doubly :
      (today : ℕ) (dto : RentalCreate) (i : ℕ)
      → dto.start_date ≤ dto.end_date
      → (register_rental today dto w).0 ≢ raised (domain (car_not_available i has_active_rental))
  register_rental-never_doubly today dto i dates e =
      register-never_doubly _ _ today dto t i k
        (answer-refuses _ _ _ (sym (register_rental-answer L up today dto t w clean k dates) ∙ e))

  -- With the connection up, at consistent tables between transactions: `end_rental` raises
  -- `CarNotFoundError` for a car if and only if the rental is one of that car, was returned, and
  -- the car is retired.
  pub end_rental-car_not_found :
      (today rental_id i : ℕ)
      → ((end_rental today rental_id w).0 ≡ raised (domain (car_not_found i)))
        ↔ OfRetiredCar rental_id i t
  end_rental-car_not_found today rental_id i = (
    λ e.
        finish-car_not_found _ today rental_id i t k
          (answer-refuses _ _ _ (sym (end_rental-answer L up today rental_id t w clean k) ∙ e)),
    λ o.
        end_rental-answer L up today rental_id t w clean k
        ∙ ap (answer (λ both. both.0)) (finish-OfRetiredCar _ today rental_id i t k o),
  )
