-- ===== src/Refinement/Cars.antt =====
-- `CarService` against its promises in `Fleet`: what each method reports, and its transaction's body.
use drive_now.Base.{ℕ, ◌≡◌, refl, subst, inl, inr, none, some, List, [], ◌∷◌, Option-cases}
use drive_now.Models.{Car}
use drive_now.Models.Tables.{Tables, update_car as put, put_car, updated_car}
use drive_now.Database.{Database, IsDatabase, IsClean, at, clean-at}
use drive_now.Messaging.{Publisher, int, names}
use drive_now.Action.{World, raised, domain, resume, car_lock, car_added, car_updated, car_retired}
use drive_now.Action.Rules.{at-assign, stored}
use drive_now.Schemas.{CarCreate, CarUpdate}
use drive_now.Services.Errors.{car_has_active_rental}
use drive_now.Repositories.Calls.{add_car-Writes, update_car-Writes, soft_delete-Writes}
use drive_now.Repositories.Cars
use drive_now.Repositories.Cars.{find_live}
use drive_now.Repositories.Rentals
use drive_now.Repositories.Rentals.{active_of}
use drive_now.Services.Cars.{
  Assignment, Update, same, changed, actual, new_status, illegal, set_all, new_car, add_car,
  write_changes, write_actual, update_body, update_car, delete_body, delete_car,
}
use drive_now.Fleet
use drive_now.Fleet.Revision.{revise, update-revise}
use drive_now.Refinement.{Ends, Ends-step, Fulfils, Report, method-Fulfils, Keeps-Admits}
use drive_now.Fleet.Consistent.{IsConsistent}
use drive_now.Fleet.Invariant.{add-Keeps, update-Keeps, delete-Keeps}
use drive_now.Models.Tables.Writes.{put_car-Satisfies}

-- What the methods report, and what `update_car` returns.
abbrev pub added_report : Car → Report
added_report car = some (
  car_added car.id car.model car.year,
  record { event_type = "car.added"; payload = ("car_id", int car.id) ∷ [] },
)

abbrev pub update_report : Update → Report
update_report (same car) = none
update_report (changed car fields) = some (
  car_updated car.id fields,
  record {
    event_type = "car.updated";
    payload = ("car_id", int car.id) ∷ ("changed", names fields) ∷ [];
  },
)

abbrev pub updated : Update → Car
updated (same car) = car
updated (changed car fields) = car

abbrev pub retired_report : Car → Report
retired_report car = some (
  car_retired car.id,
  record { event_type = "car.deleted"; payload = ("car_id", int car.id) ∷ [] },
)

module _ {D : Database} {P : Publisher} (L : IsDatabase D) where
  add-Ends :
      (dto : CarCreate) (t : Tables) (w : World D P) {n : ℕ}
      → D.view w.session ≡ at t t [] n
      → Ends
          (IsConsistent t)
          t
          (Fleet.add n (D.next_car_id w.session) dto t)
          w
          (Cars.add (new_car dto) w)
  unfolding Fleet.add
  add-Ends dto t w {n} e = elim (add_car-Writes L w (new_car dto) e) [
    | inr (x, s, f, c, b) ↦ rw f (
      c,
      (refl, refl),
      λ m up. b up (add-Keeps n _ dto t m (rw e at (L.fresh_car w.session))).rows,
    )
    | inl (s, f, v, _) ↦ rw (f, v) (refl, refl, (refl, refl))
  ]

  -- From a session between transactions, `add_car` returns the car that `Fleet.add` promises, with
  -- the promised tables stored, or raises an error of the database; the latter cannot happen when
  -- the connection is up and the tables are consistent. A return has written one line and published
  -- "car.added", or logged that publishing failed; a raise has stored, written and published
  -- nothing.
  pub add_car-Fulfils :
      (dto : CarCreate) (t : Tables) (w : World D P)
      → IsClean t (D.view w.session)
      → Fulfils
          (IsConsistent t)
          t
          (Fleet.add (D.view w.session).now (D.next_car_id w.session) dto t)
          (λ car. car)
          added_report
          w
          (add_car dto w)
  unfolding add_car
  add_car-Fulfils dto t w clean =
      method-Fulfils (IsConsistent t) t _ (λ car. car) added_report L (Cars.add (new_car dto)) _ w
        (λ car. refl)
        (λ m. Keeps-Admits _ (add-Keeps _ _ dto t m (rw clean.visible at (L.fresh_car w.session))))
        (add-Ends dto t w (clean-at clean))

  write_changes-Ends :
      (car : Car) (assigned : List Assignment) (t : Tables) (w : World D P) {n : ℕ}
      → D.view w.session ≡ at t t [] n
      → Ends (IsConsistent t) t (Fleet.save n car assigned t) w (write_changes car assigned w)
  unfolding Cars.set_attributes resume
  write_changes-Ends car assigned t w {n} e =
      elim (Option-cases (illegal car.status (new_status assigned))) [
        | inr (new, x) ↦ rw (x, write_changes, Fleet.save) (refl, stored e, (refl, refl))
        | inl x ↦
            let row = set_all car assigned in
            let w₁ = record w { session = D.assign (put row) w.session } in
            elim (update_car-Writes L w₁ (at-assign L (put row) w.session e)
              (record row { updated_at = n })) [
                | inr (y, s, f, c, b) ↦
                    rw (x, write_changes, Fleet.save, e, f)
                      (
                        c,
                        (refl, refl),
                        λ m up. b up (put_car-Satisfies (updated_car n row) t m.rows),
                      )
                | inl (s, f, v, _) ↦
                    rw (x, write_changes, Fleet.save, e, f, v) (refl, refl, (refl, refl))
              ]
      ]

  write_actual-Ends :
      (car : Car) (assigned : List Assignment) (t : Tables) (w : World D P) {n : ℕ}
      → D.view w.session ≡ at t t [] n
      → Ends (IsConsistent t) t (Fleet.save_actual n car assigned t) w (write_actual car assigned w)
  write_actual-Ends car [] t w e = rw e (refl, refl, (refl, refl))
  write_actual-Ends car (a ∷ rest) t w e = write_changes-Ends car (a ∷ rest) t w e

  update_body-Ends :
      (car_id : ℕ) (dto : CarUpdate) (t : Tables) (w : World D P) {n : ℕ}
      → D.view w.session ≡ at t t [] n
      → Ends (IsConsistent t) t (Fleet.update n car_id dto t) w (update_body car_id dto w)
  unfolding update_body resume Fleet.update Cars.get_by_id_for_update
  update_body-Ends car_id dto t w {n} e = elim (Option-cases (find_live car_id t.cars)) [
    | inl x ↦ rw (e, x, update_body) (rw (x, Fleet.update), stored e, (refl, refl))
    | inr (car, x) ↦
        let w' = record w { locks = car_lock car_id ∷ w.locks } in
        Ends-step (IsConsistent t) t w w' (rw (e, x, update_body)) (rw (x, Fleet.update))
          (refl, refl) (write_actual-Ends car (actual car dto) t w' e)
  ]

  -- `update_car` against `Fleet.update`, the promise in terms of the assignments that are made.
  pub update_car-Promised :
      (car_id : ℕ) (dto : CarUpdate) (t : Tables) (w : World D P)
      → IsClean t (D.view w.session)
      → Fulfils
          (IsConsistent t)
          t
          (Fleet.update (D.view w.session).now car_id dto t)
          updated
          update_report
          w
          (update_car car_id dto w)
  unfolding update_car
  update_car-Promised car_id dto t w clean =
      method-Fulfils (IsConsistent t) t _ updated update_report L (update_body car_id dto) _ w
        (elim [ same car ↦ refl | changed car fields ↦ refl ])
        (λ m. Keeps-Admits _ (update-Keeps _ car_id dto t m))
        (update_body-Ends car_id dto t w (clean-at clean))

  -- From a session between transactions, `update_car` returns the car that `revise` promises from
  -- the car and the body alone, with the promised tables stored, or raises the error that it
  -- promises, or raises an error of the database; the last cannot happen when the connection is up
  -- and the tables are consistent. A return with a real change has written one line and published
  -- "car.updated" with the names of the changed fields in alphabetical order, or logged that
  -- publishing failed; a return without a change and a raise have written and published nothing.
  pub update_car-Fulfils :
      (car_id : ℕ) (dto : CarUpdate) (t : Tables) (w : World D P)
      → IsClean t (D.view w.session)
      → Fulfils
          (IsConsistent t)
          t
          (revise (D.view w.session).now car_id dto t)
          updated
          update_report
          w
          (update_car car_id dto w)
  update_car-Fulfils car_id dto t w clean =
      subst (λ v. Fulfils (IsConsistent t) t v updated update_report w (update_car car_id dto w))
        (update-revise (D.view w.session).now car_id dto t)
        (update_car-Promised car_id dto t w clean)

  retire-Ends :
      (instant : ℕ) (car : Car) (t : Tables) (w : World D P) {n : ℕ}
      → D.view w.session ≡ at t t [] n
      → Ends
          (IsConsistent t)
          t
          (Fleet.accepts
            (Fleet.retired n instant car)
            (record t { cars = put_car (Fleet.retired n instant car) t.cars }))
          w
          (Cars.soft_delete instant car w)
  retire-Ends instant car t w {n} e = elim (soft_delete-Writes L w instant car e) [
    | inr (x, s, f, c, b) ↦
        rw f
          (c, (refl, refl), λ m up. b up (put_car-Satisfies (Fleet.retired n instant car) t m.rows))
    | inl (s, f, v, _) ↦ rw (f, v) (refl, refl, (refl, refl))
  ]

  delete_body-Ends :
      (instant car_id : ℕ) (t : Tables) (w : World D P) {n : ℕ}
      → D.view w.session ≡ at t t [] n
      → Ends (IsConsistent t) t (Fleet.delete n instant car_id t) w (delete_body instant car_id w)
  unfolding delete_body resume Fleet.delete Cars.get_by_id_for_update Rentals.get_active_by_car
  delete_body-Ends instant car_id t w {n} e = elim (Option-cases (find_live car_id t.cars)) [
    | inl x ↦ rw (e, x, delete_body) (rw (x, Fleet.delete), stored e, (refl, refl))
    | inr (car, x) ↦
        let w' = record w { locks = car_lock car_id ∷ w.locks } in
        elim (Option-cases (active_of car_id t)) [
          | inr (r, y) ↦
              Ends-step (IsConsistent t) t {v' = Fleet.refuses (car_has_active_rental car_id)} w w'
                {r' = (raised (domain (car_has_active_rental car_id)), w')}
                (rw (e, x, delete_body) (rw (e, y))) (rw (x, Fleet.delete) (rw y)) (refl, refl)
                (refl, stored e, (refl, refl))
          | inl y ↦
              Ends-step (IsConsistent t) t w w' (rw (e, x, delete_body) (rw (e, y)))
                (rw (x, Fleet.delete) (rw y)) (refl, refl) (retire-Ends instant car t w' e)
        ]
  ]

  -- From a session between transactions, `delete_car` returns the car that `Fleet.delete` promises,
  -- with the promised tables stored, or raises the error that it promises, or raises an error of
  -- the database; the last cannot happen when the connection is up and the tables are consistent. A
  -- return has written one line and published "car.deleted", or logged that publishing failed; a
  -- raise has stored, written and published nothing.
  pub delete_car-Fulfils :
      (instant car_id : ℕ) (t : Tables) (w : World D P)
      → IsClean t (D.view w.session)
      → Fulfils
          (IsConsistent t)
          t
          (Fleet.delete (D.view w.session).now instant car_id t)
          (λ car. car)
          retired_report
          w
          (delete_car instant car_id w)
  unfolding delete_car
  delete_car-Fulfils instant car_id t w clean =
      method-Fulfils (IsConsistent t) t _ (λ car. car) retired_report L (delete_body instant car_id)
        _ w (λ car. refl) (λ m. Keeps-Admits _ (delete-Keeps _ instant car_id t m))
        (delete_body-Ends instant car_id t w (clean-at clean))
