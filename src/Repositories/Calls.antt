-- ===== src/Repositories/Calls.antt =====
-- How the calls that flush end, by the view of the session before them: either the write is visible
-- and meets the constraints, or the call raises and what is stored is as it was.
use drive_now.Base.{ℕ, ◌≡◌, ◌⊎◌, inl, inr, some, List, [], ◌∷◌, arith}
use drive_now.Models.{Car, Rental}
use drive_now.Models.Tables.{
  Tables, Change, insert_car, insert_rental, update_car, apply_all, Satisfies, created_car,
  created_rental, updated_car, put_car,
}
use drive_now.Database.{Database, IsDatabase, IsUp, DbError, at}
use drive_now.Messaging.{Publisher}
use drive_now.Action.{Result, ok, raised, database, World, resume}
use drive_now.Action.Rules.{at-assign, flush_cases}
use drive_now.Repositories.Cars
use drive_now.Repositories.Rentals

module _ {D : Database} {P : Publisher} where
  -- A call at `w` returns `a` and leaves the view `at t u [] n` within the constraints, or raises.
  abbrev pub Writes :
      {A : Type 0} → World D P → Tables → Tables → ℕ → A → Result A × World D P → Type 0
  Writes w t u n a r =
      ((s : D.Session) × (r ≡ (ok a, record w { session = s }))
        × (D.view s ≡ at t u [] n)
        × Satisfies u)
      ⊎ ((x : DbError) × (s : D.Session) × (r ≡ (raised (database x), record w { session = s }))
          × ((D.view s).committed ≡ t)
          × (IsUp D → ¬ Satisfies u))

module _ {D : Database} {P : Publisher} (L : IsDatabase D) (w : World D P) where
  pub add_car-Writes :
      (car : Car) {t u : Tables} {n : ℕ}
      → D.view w.session ≡ at t u [] n
      → let row = created_car n (record car { id = D.next_car_id w.session }) in
        Writes w t (record u { cars = row ∷ u.cars }) n row (Cars.add car w)
  unfolding Cars.add resume
  add_car-Writes car e =
      elim (flush_cases L _
        (at-assign L (insert_car (record car { id = D.next_car_id w.session })) w.session e)) [
          | inl (s, f, v, rows) ↦ inl (s, ground arith, v, rows)
          | inr (x, s, f, v, b) ↦ inr (x, s, ground arith, v, b)
        ]

  pub add_rental-Writes :
      (rental : Rental) {t u : Tables} {n : ℕ}
      → D.view w.session ≡ at t u [] n
      → let row = created_rental n (record rental { id = D.next_rental_id w.session }) in
        Writes w t (record u { rentals = row ∷ u.rentals }) n row (Rentals.add rental w)
  unfolding Rentals.add resume
  add_rental-Writes rental e =
      let row = record rental { id = D.next_rental_id w.session } in
      elim (flush_cases L _ (at-assign L (insert_rental row) w.session e)) [
        | inl (s, f, v, rows) ↦ inl (s, ground arith, v, rows)
        | inr (x, s, f, v, b) ↦ inr (x, s, ground arith, v, b)
      ]

  module _ {t u : Tables} {cs : List Change} {n : ℕ} (e : D.view w.session ≡ at t u cs n) where
    pub update_car-Writes : (car : Car) → Writes w t (apply_all n cs u) n car (Cars.update car w)
    unfolding Cars.update resume
    update_car-Writes car = elim (flush_cases L w.session e) [
      | inl (s, f, v, rows) ↦ inl (s, ground arith, v, rows)
      | inr (x, s, f, v, b) ↦ inr (x, s, ground arith, v, b)
    ]

    pub update_rental-Writes :
        (rental : Rental) → Writes w t (apply_all n cs u) n rental (Rentals.update rental w)
    unfolding Rentals.update resume
    update_rental-Writes rental = elim (flush_cases L w.session e) [
      | inl (s, f, v, rows) ↦ inl (s, ground arith, v, rows)
      | inr (x, s, f, v, b) ↦ inr (x, s, ground arith, v, b)
    ]

  pub soft_delete-Writes :
      (instant : ℕ) (car : Car) {t u : Tables} {n : ℕ}
      → D.view w.session ≡ at t u [] n
      → let row = updated_car n (record car { deleted_at = some instant }) in
        Writes w t (record u { cars = put_car row u.cars }) n row (Cars.soft_delete instant car w)
  unfolding Cars.soft_delete resume
  soft_delete-Writes instant car e =
      let row = record car { deleted_at = some instant } in
      elim (flush_cases L _ (at-assign L (update_car row) w.session e)) [
        | inl (s, f, v, rows) ↦ inl (s, ground arith, v, rows)
        | inr (x, s, f, v, b) ↦ inr (x, s, ground arith, v, b)
      ]
