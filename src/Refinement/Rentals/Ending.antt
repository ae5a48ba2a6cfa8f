-- ===== src/Refinement/Rentals/Ending.antt =====
-- The body of the transaction of `end_rental`.
use drive_now.Base.{
  ℕ, ◌≡◌, subst, refl, inl, inr, some, [], ◌∷◌, arith, ltb, Bool-cases, Option-cases,
}
use drive_now.Models.{available, Car, Rental}
use drive_now.Models.Tables.{Tables, Satisfies, update_rental, put_rental, find_rental, find_car}
use drive_now.Database.{Database, IsDatabase, at}
use drive_now.Messaging.{Publisher}
use drive_now.Action.{raised, domain, World, resume, car_lock, rental_lock}
use drive_now.Action.Rules.{at-assign, stored}
use drive_now.Repositories.Calls.{update_car-Writes, update_rental-Writes}
use drive_now.Repositories.Cars
use drive_now.Repositories.Cars.{find_live}
use drive_now.Repositories.Rentals
use drive_now.Repositories.Rentals.{active_of}
use drive_now.Services.Rentals.{close_rental, take_back, end_body}
use drive_now.Services.Errors.{car_not_found}
use drive_now.Fleet
use drive_now.Fleet.{accepts}
use drive_now.Fleet.Consistent.{IsConsistent, put_status-Satisfies, returned-Satisfies}
use drive_now.Fleet.Invariant.{found_car}
use drive_now.Models.Tables.Laws.{find_rental_own_key}
use drive_now.Refinement.{Ends, Ends-step}
use drive_now.Refinement.Rentals.Status.{set_status-Assigned}

module _ {D : Database} {P : Publisher} (L : IsDatabase D) where
  close_rental-Ends :
      (today : ℕ) (rental : Rental) (car : Car) (t : Tables) (w : World D P) {n : ℕ}
      → D.view w.session ≡ at t t [] n
      → (IsConsistent t
          → Satisfies (record t { rentals = put_rental (Fleet.returned n today rental) t.rentals }))
      → Ends
          (IsConsistent t)
          t
          (accepts
            (Fleet.returned n today rental, Fleet.with_status n available car)
            (record {
              cars = Fleet.put_status n available car t.cars;
              rentals = put_rental (Fleet.returned n today rental) t.rentals;
            }))
          w
          (close_rental today rental car w)
  unfolding close_rental resume Rentals.set_attributes
  close_rental-Ends today rental car t w {n} e rows₁ =
      let rows₂ = λ (m : IsConsistent t). put_status-Satisfies n available car _ (rows₁ m) in
      let row = record rental { returned_date = some today } in
      let w₁ = record w { session = D.assign (update_rental row) w.session } in
      let (cs, s₁, g, v₁, changes) =
        set_status-Assigned L available car w₁ (at-assign L (update_rental row) w.session e) in
      rw (e, g, close_rental)
        (elim (update_rental-Writes L (record w { session = s₁ }) v₁
          (Fleet.returned n today rental)) [
            | inr (x, s₂, h, c, b) ↦ rw h (c, (refl, refl), λ m up. b up (rw changes (rows₂ m)))
            | inl (s₂, h, v₂, _) ↦
                rw h
                  (elim (update_car-Writes L (record w { session = s₂ }) v₂
                    (Fleet.with_status n available car)) [
                      | inr (x, s₃, k, c, b) ↦
                          rw k (c, (refl, refl), λ m up. b up (rw changes (rows₂ m)))
                      | inl (s₃, k, v₃, _) ↦ rw (k, v₃, changes) (refl, refl, (refl, refl))
                    ])
          ])

  take_back-Ends :
      (today rental_id : ℕ) (rental : Rental) (car : Car) (t : Tables) (w : World D P) {n : ℕ}
      → D.view w.session ≡ at t t [] n
      → find_rental rental_id t.rentals ≡ some rental
      → find_live rental.car_id t.cars ≡ some car
      → Ends
          (IsConsistent t)
          t
          (Fleet.take_back n today rental_id rental car t)
          w
          (take_back today rental_id rental car w)
  unfolding take_back resume
  take_back-Ends today rental_id rental car t w {n} e held found =
      elim (Option-cases rental.returned_date) [
        | inr (d, x) ↦ rw (x, take_back, Fleet.take_back) (refl, stored e, (refl, refl))
        | inl x ↦ elim (Bool-cases (ltb today rental.start_date)) [
          | inl early ↦ rw (x, early, take_back, Fleet.take_back) (refl, stored e, (refl, refl))
          | inr due ↦
              simp (x, due, take_back, Fleet.take_back)
                (close_rental-Ends today rental car t w e λ m.
                  let (at_key, same, _) = found_car rental.car_id car t m found in
                  returned-Satisfies n today rental car t m
                    (find_rental_own_key rental_id t.rentals rental held) x (ground arith)
                    (subst (λ i. find_car i t.cars ≡ some car) same at_key) same)
        ]
      ]

  pub end_body-Ends :
      (today rental_id : ℕ) (t : Tables) (w : World D P) {n : ℕ}
      → D.view w.session ≡ at t t [] n
      → Ends (IsConsistent t) t (Fleet.finish n today rental_id t) w (end_body today rental_id w)
  unfolding end_body resume Fleet.finish Cars.get_by_id_for_update Rentals.get_by_id
      Rentals.get_by_id_for_update
  end_body-Ends today rental_id t w {n} e = elim (Option-cases (find_rental rental_id t.rentals)) [
    | inl x ↦ rw (e, x, end_body) (rw (x, Fleet.finish), stored e, (refl, refl))
    | inr (rental, x) ↦ elim (Option-cases (find_live rental.car_id t.cars)) [
      | inl y ↦
          let w' = record w { locks = car_lock rental.car_id ∷ w.locks } in
          Ends-step (IsConsistent t) t {v' = Fleet.refuses (car_not_found rental.car_id)} w w'
            {r' = (raised (domain (car_not_found rental.car_id)), w')}
            (rw (e, x, end_body) (rw (e, y))) (rw (x, Fleet.finish) (rw y)) (refl, refl)
            (refl, stored e, (refl, refl))
      | inr (car, y) ↦
          let w' = record w { locks = rental_lock rental_id ∷ car_lock rental.car_id ∷ w.locks } in
          Ends-step (IsConsistent t) t w w' (rw (e, x, end_body) (rw (e, y) (rw (e, x))))
            (rw (x, Fleet.finish) (rw y)) (refl, refl)
            (take_back-Ends today rental_id rental car t w' e x y)
    ]
  ]
