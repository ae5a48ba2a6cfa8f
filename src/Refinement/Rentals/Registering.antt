-- ===== src/Refinement/Rentals/Registering.antt =====
-- The body of the transaction of `register_rental`.
use drive_now.Base.{ℕ, ◌≤◌, ◌≡◌, refl, inl, inr, none, some, [], ◌∷◌, Bool-cases, Option-cases}
use drive_now.Models.{available, in_use, status_eq, Car}
use drive_now.Models.Tables.{Tables, Satisfies, find_rental}
use drive_now.Database.{Database, IsDatabase, at}
use drive_now.Messaging.{Publisher}
use drive_now.Action.{World, resume, car_lock}
use drive_now.Action.Rules.{stored}
use drive_now.Schemas.{RentalCreate}
use drive_now.Repositories.Calls.{add_rental-Writes, update_car-Writes}
use drive_now.Repositories.Cars
use drive_now.Repositories.Cars.{find_live}
use drive_now.Repositories.Rentals
use drive_now.Repositories.Rentals.{active_of}
use drive_now.Services.Rentals.{start_rental, lend, register_body, new_rental}
use drive_now.Fleet
use drive_now.Fleet.{accepts}
use drive_now.Fleet.Consistent.{IsConsistent, put_status-Satisfies, rented-Satisfies}
use drive_now.Fleet.Invariant.{found_car}
use drive_now.Repositories.Lookup.{active_of-eq-none}
use drive_now.Refinement.{Ends, Ends-step}
use drive_now.Refinement.Rentals.Status.{set_status-Assigned}

-- Under these the constraints admit each write of `register_rental`: the tables are consistent, and
-- the term does not end before it starts, which `RentalCreate` validates.
abbrev pub CanRegister : RentalCreate → Tables → Type 0
CanRegister dto t = IsConsistent t × (dto.start_date ≤ dto.end_date)

module _ {D : Database} {P : Publisher} (L : IsDatabase D) where
  start_rental-Ends :
      (M : Type 0) (dto : RentalCreate) (car : Car) (t : Tables) (w : World D P) {n : ℕ}
      → D.view w.session ≡ at t t [] n
      → (M
          → Satisfies (record t {
            rentals = Fleet.rented n (D.next_rental_id w.session) dto car ∷ t.rentals;
          }))
      → Ends M t
          (accepts
            (Fleet.rented n (D.next_rental_id w.session) dto car, Fleet.with_status n in_use car)
            (record {
              cars = Fleet.put_status n in_use car t.cars;
              rentals = Fleet.rented n (D.next_rental_id w.session) dto car ∷ t.rentals;
            }))
          w
          (start_rental dto car w)
  unfolding start_rental resume
  start_rental-Ends M dto car t w {n} e rows₁ =
      elim (add_rental-Writes L w (new_rental car dto) e) [
        | inr (x, s, f, c, b) ↦ rw (f, start_rental) (c, (refl, refl), λ m up. b up (rows₁ m))
        | inl (s, f, v, rows) ↦
            rw (f, start_rental)
              (let (cs, s₁, g, v₁, changes) =
                  set_status-Assigned L in_use car (record w { session = s }) v in
                rw g
                  (elim (update_car-Writes L (record w { session = s₁ }) v₁
                    (Fleet.with_status n in_use car)) [
                      | inr (x, s₂, h, c, b) ↦ rw h (
                        c,
                        (refl, refl),
                        λ m up. b up (rw changes (put_status-Satisfies n in_use car _ (rows₁ m))),
                      )
                      | inl (s₂, h, v₂, _) ↦ rw (h, v₂, changes) (refl, refl, (refl, refl))
                    ]))
      ]

  pub new_rental_id :
      (w : World D P) {t : Tables} {n : ℕ}
      → D.view w.session ≡ at t t [] n
      → find_rental (D.next_rental_id w.session) t.rentals ≡ none
  new_rental_id w e = rw e at (L.fresh_rental w.session)

  lend-Ends :
      (dto : RentalCreate) (car : Car) (t : Tables) (w : World D P) {n : ℕ}
      → D.view w.session ≡ at t t [] n
      → find_live dto.car_id t.cars ≡ some car
      → Ends
          (CanRegister dto t)
          t
          (Fleet.lend n (D.next_rental_id w.session) dto car t)
          w
          (lend dto car w)
  unfolding lend resume Rentals.get_active_by_car
  lend-Ends dto car t w {n} e found = elim (Bool-cases (status_eq car.status available)) [
    | inr taken ↦ rw (taken, lend, Fleet.lend) (refl, stored e, (refl, refl))
    | inl free ↦ elim (Option-cases (active_of car.id t)) [
      | inr (r, x) ↦ rw (free, e, x, lend, Fleet.lend) (refl, stored e, (refl, refl))
      | inl x ↦
          rw (free, e, x, lend, Fleet.lend)
            (start_rental-Ends (CanRegister dto t) dto car t w e λ m.
              rented-Satisfies n _ dto car t m.0 (new_rental_id w e) m.1
                (found_car dto.car_id car t m.0 found).0 (active_of-eq-none car.id t x))
    ]
  ]

  pub register_body-Ends :
      (dto : RentalCreate) (t : Tables) (w : World D P) {n : ℕ}
      → D.view w.session ≡ at t t [] n
      → Ends
          (CanRegister dto t)
          t
          (Fleet.rent n (D.next_rental_id w.session) dto t)
          w
          (register_body dto w)
  unfolding register_body resume Fleet.rent Cars.get_by_id_for_update
  register_body-Ends dto t w {n} e = elim (Option-cases (find_live dto.car_id t.cars)) [
    | inl x ↦ rw (e, x, register_body) (rw (x, Fleet.rent), stored e, (refl, refl))
    | inr (car, x) ↦
        let w' = record w { locks = car_lock dto.car_id ∷ w.locks } in
        Ends-step (CanRegister dto t) t w w' (rw (e, x, register_body)) (rw (x, Fleet.rent))
          (refl, refl) (lend-Ends dto car t w' e x)
  ]
