-- ===== src/History/Retention.antt =====
-- The rows of both tables over a sequence of calls.
use drive_now.Base.{subst, List, [], ◌∷◌, All}
use drive_now.Models.Tables.{Tables}
use drive_now.Database.{Database, IsDatabase}
use drive_now.Messaging.{Publisher}
use drive_now.Action.{Result, ok, raised, domain, database, World}
use drive_now.Services.Cars.{add_car, update_car, delete_car}
use drive_now.Services.Rentals.{register_rental, end_rental}
use drive_now.Fleet.{Verdict}
use drive_now.Fleet.Retention.{Retains, Retains-refl, Retains-trans}
use drive_now.Fleet.Retention.Promises.{
  Extends, add-Extends, update-Extends, delete-Extends, register-Extends, finish-Extends,
}
use drive_now.Refinement.{Fulfils, Report}
use drive_now.Refinement.Cars.{
  add_car-Fulfils, update_car-Promised, delete_car-Fulfils, updated, added_report, update_report,
  retired_report,
}
use drive_now.Refinement.Rentals.{
  register_rental-Fulfils, end_rental-Fulfils, started_report, ended_report,
}
use drive_now.History.{
  Call, add, update, delete, register, finish, IsValidCall, perform, run, IsSettled,
  perform-IsSettled,
}

module _ {D : Database} {P : Publisher} where
  Fulfils-Retains :
      {A B : Type 0} (M : Type 0) (t : Tables) (v : Verdict A) (out : A → B) (report : A → Report)
      (w₀ : World D P) (r : Result B × World D P)
      → Extends t v
      → Fulfils M t v out report w₀ r
      → Retains t (D.view r.1.session).committed
  Fulfils-Retains M t v out report w₀ (ok b, w) x (a, t', e, _, _, clean, _) =
      rw clean.committed (subst (Extends t) e x)
  Fulfils-Retains M t v out report w₀ (raised (domain e), w) x (_, clean, _) =
      rw clean.committed (Retains-refl t)
  Fulfils-Retains M t v out report w₀ (raised (database e), w) x (clean, _, _) =
      rw clean.committed (Retains-refl t)

module _ {D : Database} {P : Publisher} (L : IsDatabase D) where
  perform-Retains :
      (c : Call) (w : World D P) (s : IsSettled w)
      → IsValidCall c
      → Retains s.0 (D.view (perform c w).session).committed
  perform-Retains (add dto) w (t, clean, k) valid =
      Fulfils-Retains _ t _ (λ car. car) added_report w (add_car dto w)
        (add-Extends _ _ dto t (rw clean.visible at (L.fresh_car w.session)))
        (add_car-Fulfils L dto t w clean)
  perform-Retains (update car_id dto) w (t, clean, k) valid =
      Fulfils-Retains _ t _ updated update_report w (update_car car_id dto w)
        (update-Extends _ car_id dto t k) (update_car-Promised L car_id dto t w clean)
  perform-Retains (delete instant car_id) w (t, clean, k) valid =
      Fulfils-Retains _ t _ (λ car. car) retired_report w (delete_car instant car_id w)
        (delete-Extends _ instant car_id t k) (delete_car-Fulfils L instant car_id t w clean)
  perform-Retains (register today dto) w (t, clean, k) valid =
      Fulfils-Retains _ t _ (λ both. both.0) started_report w (register_rental today dto w)
        (register-Extends _ _ today dto t k (rw clean.visible at (L.fresh_rental w.session)))
        (register_rental-Fulfils L today dto t w clean)
  perform-Retains (finish today rental_id) w (t, clean, k) valid =
      Fulfils-Retains _ t _ (λ both. both.0) ended_report w (end_rental today rental_id w)
        (finish-Extends _ today rental_id t k) (end_rental-Fulfils L today rental_id t w clean)

  -- From a session between transactions at consistent tables, any sequence of service calls with
  -- valid terms leaves in the stored tables, for each row that was there, a row with its key: a
  -- rental with all fields kept but its return and `updated_at`, and unchanged if it had been
  -- returned, and a car with its `created_at` kept, and unchanged if it had been retired.
  pub run-Retains :
      (cs : List Call) (w : World D P) (s : IsSettled w)
      → All IsValidCall cs
      → Retains s.0 (D.view (run cs w).session).committed
  unfolding run
  run-Retains [] w s valid = rw (s.1.committed) (Retains-refl s.0)
  run-Retains (c ∷ cs) w s valid =
      let s' = perform-IsSettled L c w valid.0 s in
      Retains-trans (subst (Retains s.0) s'.1.committed (perform-Retains c w s valid.0))
        (run-Retains cs (perform c w) s' valid.1)
