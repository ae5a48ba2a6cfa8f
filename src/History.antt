-- ===== src/History.antt =====
-- Any sequence of service calls. A request has a session of its own (`get_db` of app/core/db.py), so
-- each call begins between transactions. Calls that overlap in time are in Interleaving.
pub mod Retention
use drive_now.Base.{ℕ, ◌≤◌, subst, List, [], ◌∷◌, All}
use drive_now.Models.Tables.{Tables}
use drive_now.Database.{Database, IsDatabase, IsClean}
use drive_now.Messaging.{Publisher}
use drive_now.Action.{Result, ok, raised, domain, database, World}
use drive_now.Schemas.{CarCreate, CarUpdate, RentalCreate}
use drive_now.Services.Cars.{add_car, update_car, delete_car}
use drive_now.Services.Rentals.{register_rental, end_rental}
use drive_now.Fleet.{Verdict}
use drive_now.Fleet.Consistent.{IsConsistent}
use drive_now.Fleet.Invariant.{
  Keeps, add-Keeps, update-Keeps, delete-Keeps, register-Keeps, finish-Keeps,
}
use drive_now.Refinement.{Fulfils, Report}
use drive_now.Refinement.Cars.{
  add_car-Fulfils, update_car-Promised, delete_car-Fulfils, updated, added_report, update_report,
  retired_report,
}
use drive_now.Refinement.Rentals.{
  register_rental-Fulfils, end_rental-Fulfils, started_report, ended_report,
}

-- A call that changes the fleet, with the day or the instant at which it is made.
pub data Call : Type 0 where
  add : CarCreate → Call
  update : (car_id : ℕ) → CarUpdate → Call
  delete : (instant car_id : ℕ) → Call
  register : (today : ℕ) → RentalCreate → Call
  finish : (today rental_id : ℕ) → Call

-- What the request DTOs guarantee: a term does not end before it starts.
abbrev pub IsValidCall : Call → Type 0
IsValidCall (register today dto) = dto.start_date ≤ dto.end_date
IsValidCall (add dto) = Unit {0}
IsValidCall (update car_id dto) = Unit {0}
IsValidCall (delete instant car_id) = Unit {0}
IsValidCall (finish today rental_id) = Unit {0}

module _ {D : Database} {P : Publisher} where
  -- The world after a call, whether it returned or raised.
  abbrev pub perform : Call → World D P → World D P
  perform (add dto) w = (add_car dto w).1
  perform (update car_id dto) w = (update_car car_id dto w).1
  perform (delete instant car_id) w = (delete_car instant car_id w).1
  perform (register today dto) w = (register_rental today dto w).1
  perform (finish today rental_id) w = (end_rental today rental_id w).1

  unfoldable pub run : List Call → World D P → World D P
  run [] w = w
  run (c ∷ cs) w = run cs (perform c w)

  -- Between transactions, at consistent tables.
  abbrev pub IsSettled : World D P → Type 0
  IsSettled w = (t : Tables) × IsClean t (D.view w.session) × IsConsistent t

  Fulfils-IsSettled :
      {A B : Type 0} (M : Type 0) (t : Tables) (v : Verdict A) (out : A → B) (report : A → Report)
      (w₀ : World D P) (r : Result B × World D P)
      → Keeps v
      → IsConsistent t
      → Fulfils M t v out report w₀ r
      → IsSettled r.1
  Fulfils-IsSettled M t v out report w₀ (ok b, w) k c (a, t', e, _, _, clean, _) =
      (t', clean, subst Keeps e k)
  Fulfils-IsSettled M t v out report w₀ (raised (domain e), w) k c (_, clean, _) = (t, clean, c)
  Fulfils-IsSettled M t v out report w₀ (raised (database e), w) k c (clean, _, _) = (t, clean, c)

module _ {D : Database} {P : Publisher} (L : IsDatabase D) where
  pub perform-IsSettled :
      (c : Call) (w : World D P) → IsValidCall c → IsSettled w → IsSettled (perform c w)
  perform-IsSettled (add dto) w valid (t, clean, k) =
      Fulfils-IsSettled _ t _ (λ car. car) added_report w (add_car dto w)
        (add-Keeps _ _ dto t k (rw clean.visible at (L.fresh_car w.session))) k
        (add_car-Fulfils L dto t w clean)
  perform-IsSettled (update car_id dto) w valid (t, clean, k) =
      Fulfils-IsSettled _ t _ updated update_report w (update_car car_id dto w)
        (update-Keeps _ car_id dto t k) k (update_car-Promised L car_id dto t w clean)
  perform-IsSettled (delete instant car_id) w valid (t, clean, k) =
      Fulfils-IsSettled _ t _ (λ car. car) retired_report w (delete_car instant car_id w)
        (delete-Keeps _ instant car_id t k) k (delete_car-Fulfils L instant car_id t w clean)
  perform-IsSettled (register today dto) w valid (t, clean, k) =
      Fulfils-IsSettled _ t _ (λ both. both.0) started_report w (register_rental today dto w)
        (register-Keeps _ _ today dto t k (rw clean.visible at (L.fresh_rental w.session)) valid) k
        (register_rental-Fulfils L today dto t w clean)
  perform-IsSettled (finish today rental_id) w valid (t, clean, k) =
      Fulfils-IsSettled _ t _ (λ both. both.0) ended_report w (end_rental today rental_id w)
        (finish-Keeps _ today rental_id t k) k (end_rental-Fulfils L today rental_id t w clean)

  -- From a session between transactions, at tables that meet the schema and where a car is in use
  -- if and only if it has an open rental, any sequence of service calls whose rental terms do not
  -- end before they start leads to such a session and such tables, whatever calls are refused and
  -- whatever flushes, commits and publishes fail on the way.
  pub run-IsSettled :
      (cs : List Call) (w : World D P) → All IsValidCall cs → IsSettled w → IsSettled (run cs w)
  unfolding run
  run-IsSettled [] w valid s = s
  run-IsSettled (c ∷ cs) w valid s =
      run-IsSettled cs (perform c w) valid.1 (perform-IsSettled c w valid.0 s)
