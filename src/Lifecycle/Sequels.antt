-- ===== src/Lifecycle/Sequels.antt =====
-- What a rental means for the calls after it.
use drive_now.Base.{ℕ, ◌≤◌, ◌≡◌, refl, sym, ◌∙◌, ap, some, subst}
use drive_now.Models.{in_use, Rental}
use drive_now.Models.Tables.{Tables}
use drive_now.Database.{Database, IsDatabase, IsUp, IsClean}
use drive_now.Messaging.{Publisher}
use drive_now.Action.{ok, raised, domain, World}
use drive_now.Schemas.{RentalCreate}
use drive_now.Services.Errors.{car_not_available, has_status, rental_already_ended}
use drive_now.Services.Rentals.{register_rental, end_rental}
use drive_now.Repositories.Cars.{find_live}
use drive_now.Fleet
use drive_now.Fleet.{Verdict, accepts, refuses}
use drive_now.Fleet.Consistent.{IsConsistent}
use drive_now.Fleet.Renting.{register-in_use, rented_car}
use drive_now.Fleet.Ending.{registered-finish, returned_car, finish_twice}
use drive_now.Refinement.Total.{answer, register_rental-answer, end_rental-answer}
use drive_now.Lifecycle.Rentals.{registered-Returned, ended-Returned, register_rental-accepted}

module _ {D : Database} {P : Publisher} (L : IsDatabase D) (up : IsUp D) (t : Tables)
    (w : World D P) (clean : IsClean t (D.view w.session)) (k : IsConsistent t) where
  -- With the connection up, at consistent tables between transactions: after `register_rental` has
  -- returned a rental, registering another one for the same car (from its own start date, with a
  -- valid term) raises `CarNotAvailableError` with the status in_use.
  pub register_rental-excludes :
      (today : ℕ) (dto : RentalCreate) (r : Rental) (dto' : RentalCreate)
      → dto.start_date ≤ dto.end_date
      → (register_rental today dto w).0 ≡ ok r
      → dto'.start_date ≤ dto'.end_date
      → dto'.car_id ≡ dto.car_id
      → (register_rental dto'.start_date dto' (register_rental today dto w).1).0
        ≡ raised (domain (car_not_available dto'.car_id (has_status in_use)))
  register_rental-excludes today dto r dto' dates e dates' same =
      let (a, t', p, _, clean', k') = registered-Returned L up t w clean k today dto r dates e in
      let (car, found, used) = rented_car _ _ today dto t a t' k p in
      register_rental-answer L up dto'.start_date dto' t' _ clean' k' dates'
      ∙ ap (answer (λ both. both.0)) (register-in_use _ _ dto' car t' (rw same found) used)

  -- With the connection up, at consistent tables between transactions: a rental that was registered
  -- can be ended on its first or any later day; `end_rental` then returns it with that day as its
  -- return, and the car can be registered for a further valid rental.
  pub end_rental-frees :
      (today : ℕ) (dto : RentalCreate) (r : Rental) (today' : ℕ) (dto' : RentalCreate)
      → dto.start_date ≤ dto.end_date
      → (register_rental today dto w).0 ≡ ok r
      → today ≤ today'
      → dto'.start_date ≤ dto'.end_date
      → dto'.car_id ≡ dto.car_id
      → let w₁ = (register_rental today dto w).1 in
        let w₂ = (end_rental today' r.id w₁).1 in
        ((end_rental today' r.id w₁).0 ≡ ok (Fleet.returned (D.view w₁.session).now today' r))
        × ((r' : Rental) × ((register_rental dto'.start_date dto' w₂).0 ≡ ok r'))
  end_rental-frees today dto r today' dto' dates e later dates' same =
      let w₁ = (register_rental today dto w).1 in
      let w₂ = (end_rental today' r.id w₁).1 in
      let (a, t', p, q, clean₁, k₁) = registered-Returned L up t w clean k today dto r dates e in
      let (j, (c, t'', f)) =
        registered-finish _ _ today dto t a t' (D.view w₁.session).now today' k p later in
      let g =
        subst
          (λ (x : Rental).
            Fleet.finish (D.view w₁.session).now today' x.id t'
            ≡ accepts (Fleet.returned (D.view w₁.session).now today' x, c) t'')
          (sym q) f in
      let ended =
        end_rental-answer L up today' r.id t' w₁ clean₁ k₁ ∙ ap (answer (λ both. both.0)) g in
      let (b, u, p', q', clean₂, k₂) = ended-Returned L up t' w₁ clean₁ k₁ today' r.id _ ended in
      let (car, found, free) = returned_car _ today' r.id t' b u k₁ p' in
      let key : b.0.car_id ≡ dto'.car_id =
        ap (λ (x : Rental). x.car_id) (sym q') ∙ ap (λ (x : Rental). x.car_id) q ∙ j ∙ sym same in
      (
        ended,
        (register_rental-accepted L up u w₂ clean₂ k₂ dto'.start_date dto' dates').1
            (refl, (car, subst (λ i. find_live i u.cars ≡ some car) key found, free)),
      )

  -- With the connection up, at consistent tables between transactions: after `end_rental` has
  -- returned, ending the same rental again raises `RentalAlreadyEndedError`.
  pub end_rental-twice :
      (today rental_id : ℕ) (r : Rental) (today' : ℕ)
      → (end_rental today rental_id w).0 ≡ ok r
      → (end_rental today' rental_id (end_rental today rental_id w).1).0
        ≡ raised (domain (rental_already_ended rental_id))
  end_rental-twice today rental_id r today' e =
      let (a, t', p, _, clean', k') = ended-Returned L up t w clean k today rental_id r e in
      end_rental-answer L up today' rental_id t' _ clean' k'
      ∙ ap (answer (λ both. both.0)) (finish_twice _ today rental_id t a t' _ today' k p)
