-- ===== src/Refinement/Rentals/Status.antt =====
-- The assignment of a car's status within a transaction of `RentalService`.
use mathlib.Core.List.{append-nil}
use drive_now.Base.{ℕ, ◌≡◌, refl, inl, inr, List, [], ◌∷◌, ◌++◌, arith, Bool-cases}
use drive_now.Models.{CarStatus, status_eq, Car}
use drive_now.Models.Tables.{Tables, Change, apply_all, update_car}
use drive_now.Database.{Database, IsDatabase, at}
use drive_now.Messaging.{Publisher}
use drive_now.Action.{ok, World, resume}
use drive_now.Action.Rules.{at-assign}
use drive_now.Repositories.Cars
use drive_now.Repositories.Cars.{find_live}
use drive_now.Services.Rentals.{set_status}
use drive_now.Fleet
use drive_now.Fleet.{accepts}

module _ {D : Database} {P : Publisher} (L : IsDatabase D) where
  -- The assignment of a status is pending after it, unless the car has that status.
  abbrev pub Assigned : CarStatus → Car → World D P → Tables → Tables → List Change → ℕ → Type 0
  Assigned status car w t u cs n =
      (cs' : List Change) × (s : D.Session) × (set_status status car w
        ≡ (ok (Fleet.with_status n status car), record w { session = s }))
      × (D.view s ≡ at t u (cs ++ cs') n)
      × ((u' : Tables)
          → apply_all n cs' u' ≡ record u' { cars = Fleet.put_status n status car u'.cars })

  pub set_status-Assigned :
      (status : CarStatus) (car : Car) (w : World D P) {t u : Tables} {cs : List Change} {n : ℕ}
      → D.view w.session ≡ at t u cs n
      → Assigned status car w t u cs n
  unfolding set_status Cars.set_attributes resume
  set_status-Assigned status car w {cs = cs} e = elim (Bool-cases (status_eq car.status status)) [
    | inl same ↦ ([], w.session, ground arith, rw (e, append-nil cs) refl, λ u'. ground arith)
    | inr other ↦
        let c = update_car (record car { status = status }) in
        (c ∷ [], D.assign c w.session, ground arith, at-assign L c w.session e, λ u'. ground arith)
  ]
