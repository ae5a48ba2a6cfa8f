-- ===== src/Interleaving/Refusal.antt =====
-- What a transaction refuses, against the promise of its method.
use drive_now.Base.{
  ℕ, ◌≡◌, refl, sym, ap, subst, ◌∙◌, inl, inr, true, none, some, List, [], ◌∷◌, arith, ◌==◌, ltb,
  Bool-cases, Option-cases,
}
use drive_now.Models.{available, CarStatus, status_eq, Car, Rental}
use drive_now.Models.Tables.{Tables, find_rental}
use drive_now.Schemas.{CarUpdate, RentalCreate}
use drive_now.Services.Errors.{DomainError, car_not_found, car_status_transition}
use drive_now.Services.Cars.{Assignment, actual, new_status, illegal}
use drive_now.Repositories.Cars.{find_live}
use drive_now.Repositories.Rentals.{active_of}
use drive_now.Fleet
use drive_now.History.{Call, add, update, delete, register, finish}
use drive_now.Interleaving.Points.{
  Point, ready, candidate, locked, written_car, written_update, written_retired, written_rental,
  written_return, refused, committed, aborted, is_running,
}
use drive_now.Interleaving.Statements.{react, at_ready, at_locked, read_car}
use drive_now.Interleaving.Writes.{Job, promise, promised, answer_of, refuses}
use drive_now.Interleaving.Facts.{Known, IsLive, IsAbout, IsCandidate}

missing :
    (i : ℕ) (t : Tables) (e : DomainError)
    → read_car i t ≡ refused e
    → (find_live i t.cars ≡ none) × (car_not_found i ≡ e)
missing i t e h = ground arith

module _ (now k l : ℕ) where
  ready-refuses :
      (call : Call) (t : Tables) (e : DomainError)
      → at_ready call t ≡ refused e
      → promised now k l call t ≡ refuses e
  unfolding Fleet.update Fleet.delete Fleet.register Fleet.rent Fleet.finish
  ready-refuses (add dto) t e h = absurd (cc)
  ready-refuses (update car_id dto) t e h =
      let (x, same) = missing car_id t e h in simp (x, Fleet.update) (ap refuses same)
  ready-refuses (delete instant car_id) t e h =
      let (x, same) = missing car_id t e h in simp (x, Fleet.delete) (ap refuses same)
  ready-refuses (register today dto) t e h = elim (Bool-cases (dto.start_date == today)) [
    | inr other ↦ simp (other, Fleet.register) (ground arith)
    | inl same_day ↦
        let (x, same) = missing dto.car_id t e (ground arith) in
        simp (same_day, x, Fleet.register, Fleet.rent) (ap refuses same)
  ]
  ready-refuses (finish today rental_id) t e h =
      elim (Option-cases (find_rental rental_id t.rentals)) [
        | inl x ↦ simp (x, Fleet.finish) (ground arith)
        | inr (r, x) ↦ absurd (ground arith)
      ]

  save_actual-refuses :
      (car : Car) (assigned : List Assignment) (t : Tables) (new : CarStatus)
      → illegal car.status (new_status assigned) ≡ some new
      → answer_of (Fleet.save_actual now car assigned t)
        ≡ refuses (car_status_transition car.status new)
  save_actual-refuses car [] t new x = absurd (ground arith)
  save_actual-refuses car (a ∷ rest) t new x = simp (x, Fleet.save) refl

  update-refuses :
      (car_id : ℕ) (dto : CarUpdate) (car : Car) (t : Tables) (e : DomainError)
      → IsLive car t
      → car_id ≡ car.id
      → at_locked (update car_id dto) car t ≡ refused e
      → promised now k l (update car_id dto) t ≡ refuses e
  unfolding Fleet.update
  update-refuses car_id dto car t e live same x =
      elim (Option-cases (illegal car.status (new_status (actual car dto)))) [
        | inl y ↦ absurd (ground arith)
        | inr (new, y) ↦
            simp (same, live, Fleet.update)
              (save_actual-refuses car (actual car dto) t new y ∙ ap refuses (ground arith))
      ]

  delete-refuses :
      (instant car_id : ℕ) (car : Car) (t : Tables) (e : DomainError)
      → IsLive car t
      → car_id ≡ car.id
      → at_locked (delete instant car_id) car t ≡ refused e
      → promised now k l (delete instant car_id) t ≡ refuses e
  unfolding Fleet.delete
  delete-refuses instant car_id car t e live same x =
      let held = subst (λ i. find_live i t.cars ≡ some car) (sym same) live in
      elim (Option-cases (active_of car_id t)) [
        | inl y ↦ absurd (ground arith)
        | inr (r, y) ↦ simp (held, y, Fleet.delete) (ap refuses (ground arith))
      ]

  register-refuses :
      (today : ℕ) (dto : RentalCreate) (car : Car) (t : Tables) (e : DomainError)
      → IsLive car t
      → dto.start_date ≡ today
      → dto.car_id ≡ car.id
      → at_locked (register today dto) car t ≡ refused e
      → promised now k l (register today dto) t ≡ refuses e
  unfolding Fleet.register Fleet.rent
  register-refuses today dto car t e live starts same x =
      let held = subst (λ i. find_live i t.cars ≡ some car) (sym same) live in
      let today_eq : (dto.start_date == today) ≡ true = ground arith in
      elim (Bool-cases (status_eq car.status available)) [
        | inr y ↦ simp (today_eq, held, y, Fleet.register, Fleet.rent) (ap refuses (ground arith))
        | inl y ↦ elim (Option-cases (active_of car.id t)) [
          | inl z ↦ absurd (ground arith)
          | inr (r, z) ↦
              simp (today_eq, held, y, z, Fleet.register, Fleet.rent) (ap refuses (ground arith))
        ]
      ]

  finish-refuses :
      (today rental_id : ℕ) (r : Rental) (car : Car) (t : Tables) (e : DomainError)
      → IsLive car t
      → find_rental rental_id t.rentals ≡ some r
      → r.car_id ≡ car.id
      → at_locked (finish today rental_id) car t ≡ refused e
      → promised now k l (finish today rental_id) t ≡ refuses e
  unfolding Fleet.finish
  finish-refuses today rental_id r car t e live there same x =
      let held = subst (λ i. find_live i t.cars ≡ some car) (sym same) live in
      elim (Option-cases r.returned_date) [
        | inr (d, y) ↦
            simp (there, held, y, Fleet.finish, Fleet.take_back) (ap refuses (ground arith))
        | inl y ↦ elim (Bool-cases (ltb today r.start_date)) [
          | inl z ↦
              simp (there, held, y, z, Fleet.finish, Fleet.take_back) (ap refuses (ground arith))
          | inr z ↦ absurd (ground arith)
        ]
      ]

  locked-refuses :
      (call : Call) (car : Car) (t : Tables) (e : DomainError)
      → IsLive car t
      → IsAbout call car t
      → at_locked call car t ≡ refused e
      → promised now k l call t ≡ refuses e
  locked-refuses (add dto) car t e live h x = absurd h
  locked-refuses (update car_id dto) car t e live h x = update-refuses car_id dto car t e live h x
  locked-refuses (delete instant car_id) car t e live h x =
      delete-refuses instant car_id car t e live h x
  locked-refuses (register today dto) car t e live (starts, same) x =
      register-refuses today dto car t e live starts same x
  locked-refuses (finish today rental_id) car t e live (r, there, same) x =
      finish-refuses today rental_id r car t e live there same x

  candidate-refuses :
      (call : Call) (r : Rental) (t : Tables) (e : DomainError)
      → IsCandidate call r t
      → read_car r.car_id t ≡ refused e
      → promised now k l call t ≡ refuses e
  unfolding Fleet.finish
  candidate-refuses (finish today rental_id) r t e (r', there, same) h =
      let (x, named) = missing r.car_id t e h in
      let gone = subst (λ i. find_live i t.cars ≡ none) (sym same) x in
      simp (there, gone, Fleet.finish) (ap refuses (ap car_not_found same ∙ named))
  candidate-refuses (add dto) r t e h x = absurd h
  candidate-refuses (update car_id dto) r t e h x = absurd h
  candidate-refuses (delete instant car_id) r t e h x = absurd h
  candidate-refuses (register today dto) r t e h x = absurd h

-- Refusal.
pub react-refuses :
    (q : Job) (p : Point) (t : Tables) (e : DomainError)
    → is_running p ≡ true
    → Known q.call p t
    → react q.call t p ≡ refused e
    → promise q t ≡ refuses e
react-refuses q ready t e w h x = ready-refuses q.now q.car_key q.rental_key q.call t e x
react-refuses q (candidate r) t e w h x =
    candidate-refuses q.now q.car_key q.rental_key q.call r t e h x
react-refuses q (locked car) t e w (live, h) x =
    locked-refuses q.now q.car_key q.rental_key q.call car t e live h x
react-refuses q written_car t e w h x = absurd (cc)
react-refuses q (written_update car) t e w h x = absurd (cc)
react-refuses q (written_retired car) t e w h x = absurd (cc)
react-refuses q (written_rental car) t e w h x = absurd (cc)
react-refuses q (written_return r car) t e w h x = absurd (cc)
react-refuses q (refused e') t e w h x = absurd (cc)
react-refuses q committed t e w h x = absurd (cc)
react-refuses q aborted t e w h x = absurd (cc)
