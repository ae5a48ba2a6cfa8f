-- ===== src/Refinement/Total.antt =====
-- The results of the methods while the connection to the database holds.
use drive_now.Base.{ℕ, ◌≤◌, ◌≡◌}
use drive_now.Models.Tables.{Tables}
use drive_now.Database.{Database, IsDatabase, IsUp, IsClean}
use drive_now.Messaging.{Publisher}
use drive_now.Action.{Result, ok, raised, domain, database, World}
use drive_now.Schemas.{CarCreate, CarUpdate, RentalCreate}
use drive_now.Services.Cars.{add_car, update_car, delete_car}
use drive_now.Services.Rentals.{register_rental, end_rental}
use drive_now.Fleet
use drive_now.Fleet.{Verdict, accepts, refuses}
use drive_now.Fleet.Consistent.{IsConsistent}
use drive_now.Refinement.{Fulfils, Report}
use drive_now.Refinement.Cars.{
  add_car-Fulfils, update_car-Promised, delete_car-Fulfils, updated, added_report, update_report,
  retired_report,
}
use drive_now.Refinement.Rentals.{
  register_rental-Fulfils, end_rental-Fulfils, started_report, ended_report,
}

-- The result of a promise: a return, or a domain error.
abbrev pub answer : {A B : Type 0} → (A → B) → Verdict A → Result B
answer out (accepts a t) = ok (out a)
answer out (refuses e) = raised (domain e)

module _ {D : Database} {P : Publisher} (L : IsDatabase D) (up : IsUp D) where
  Fulfils-answer :
      {A B : Type 0} (M : Type 0) (t : Tables) (v : Verdict A) (out : A → B) (report : A → Report)
      (w₀ : World D P) (r : Result B × World D P)
      → M
      → Fulfils M t v out report w₀ r
      → r.0 ≡ answer out v
  Fulfils-answer M t v out report w₀ (ok b, w) m (a, t', e, f, _, _, _) = rw (e, f)
  Fulfils-answer M t v out report w₀ (raised (domain e), w) m (f, _, _) = rw f
  Fulfils-answer M t v out report w₀ (raised (database e), w) m (_, _, b) = absurd (b m up)

  -- With the database up and the tables consistent, `add_car` returns the new car.
  pub add_car-answer :
      (dto : CarCreate) (t : Tables) (w : World D P)
      → IsClean t (D.view w.session)
      → IsConsistent t
      → (add_car dto w).0 ≡ ok (Fleet.added (D.view w.session).now (D.next_car_id w.session) dto)
  unfolding Fleet.add
  add_car-answer dto t w clean k =
      Fulfils-answer _ t _ (λ car. car) added_report w (add_car dto w) k
        (add_car-Fulfils L dto t w clean)

  -- With the connection up and consistent tables, `update_car` returns or raises as `Fleet.update`
  -- promises.
  pub update_car-answer :
      (car_id : ℕ) (dto : CarUpdate) (t : Tables) (w : World D P)
      → IsClean t (D.view w.session)
      → IsConsistent t
      → (update_car car_id dto w).0
        ≡ answer updated (Fleet.update (D.view w.session).now car_id dto t)
  update_car-answer car_id dto t w clean k =
      Fulfils-answer _ t _ updated update_report w (update_car car_id dto w) k
        (update_car-Promised L car_id dto t w clean)

  -- With the connection up and consistent tables, `delete_car` returns or raises as `Fleet.delete`
  -- promises.
  pub delete_car-answer :
      (instant car_id : ℕ) (t : Tables) (w : World D P)
      → IsClean t (D.view w.session)
      → IsConsistent t
      → (delete_car instant car_id w).0
        ≡ answer (λ car. car) (Fleet.delete (D.view w.session).now instant car_id t)
  delete_car-answer instant car_id t w clean k =
      Fulfils-answer _ t _ (λ car. car) retired_report w (delete_car instant car_id w) k
        (delete_car-Fulfils L instant car_id t w clean)

  -- With the connection up, consistent tables and a term that does not end before it starts,
  -- `register_rental` returns or raises as `Fleet.register` promises: no constraint of the schema
  -- is violated on the way.
  pub register_rental-answer :
      (today : ℕ) (dto : RentalCreate) (t : Tables) (w : World D P)
      → IsClean t (D.view w.session)
      → IsConsistent t
      → dto.start_date ≤ dto.end_date
      → (register_rental today dto w).0
        ≡ answer
            (λ both. both.0)
            (Fleet.register (D.view w.session).now (D.next_rental_id w.session) today dto t)
  register_rental-answer today dto t w clean k dates =
      Fulfils-answer _ t _ (λ both. both.0) started_report w (register_rental today dto w)
        (k, dates) (register_rental-Fulfils L today dto t w clean)

  -- With the connection up and consistent tables, `end_rental` returns or raises as `Fleet.finish`
  -- promises.
  pub end_rental-answer :
      (today rental_id : ℕ) (t : Tables) (w : World D P)
      → IsClean t (D.view w.session)
      → IsConsistent t
      → (end_rental today rental_id w).0
        ≡ answer (λ both. both.0) (Fleet.finish (D.view w.session).now today rental_id t)
  end_rental-answer today rental_id t w clean k =
      Fulfils-answer _ t _ (λ both. both.0) ended_report w (end_rental today rental_id w) k
        (end_rental-Fulfils L today rental_id t w clean)
