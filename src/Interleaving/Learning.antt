-- ===== src/Interleaving/Learning.antt =====
-- What a statement of a transaction adds to what it knows.
use drive_now.Base.{
  ℕ, ◌≡◌, refl, sym, subst, ◌∙◌, inl, inr, none, some, arith, ◌==◌, ltb, Bool-cases, Option-cases,
}
use drive_now.Models.{available, status_eq, Car, Rental}
use drive_now.Models.Tables.{Tables, find_rental}
use drive_now.Services.Errors.{
  car_not_found, rental_not_found, car_not_available, has_status, has_active_rental,
  car_status_transition, car_has_active_rental, rental_already_ended, return_before_start,
  rental_must_start_today,
}
use drive_now.Services.Cars.{actual, new_status, illegal}
use drive_now.Repositories.Cars.{find_live}
use drive_now.Repositories.Rentals.{active_of}
use drive_now.Fleet.Consistent.{IsConsistent}
use drive_now.Fleet.Invariant.{found_car}
use drive_now.History.{Call, add, update, delete, register, finish}
use drive_now.Interleaving.Points.{
  Point, ready, candidate, locked, written_car, written_update, written_retired, written_rental,
  written_return, refused, committed, aborted,
}
use drive_now.Interleaving.Statements.{react, at_ready, at_locked, read_car, return_tests}
use drive_now.Interleaving.Facts.{Known, IsLive, IsAbout, IsCandidate}

moved : (call : Call) (t : Tables) {p : Point} (q : Point) → p ≡ q → Known call q t → Known call p t
moved call t q e h = subst (λ x. Known call x t) (sym e) h

-- A row lock on a car that is there.
read_car-Known :
    (call : Call) (i : ℕ) (t : Tables)
    → IsConsistent t
    → ((car : Car) → find_live i t.cars ≡ some car → i ≡ car.id → IsAbout call car t)
    → Known call (read_car i t) t
read_car-Known call i t k about = elim (Option-cases (find_live i t.cars)) [
  | inl x ↦ moved call t (refused (car_not_found i)) (simp (x, read_car) refl) tt
  | inr (car, x) ↦
      let (_, same, _) = found_car i car t k x in
      moved call t (locked car) (simp (x, read_car) refl)
        (subst (λ j. find_live j t.cars ≡ some car) (sym same) x, about car x (sym same))
]

ready-Known : (call : Call) (t : Tables) → IsConsistent t → Known call (at_ready call t) t
ready-Known (add dto) t k = tt
ready-Known (update car_id dto) t k =
    read_car-Known (update car_id dto) car_id t k (λ car x same. same)
ready-Known (delete instant car_id) t k =
    read_car-Known (delete instant car_id) car_id t k (λ car x same. same)
ready-Known (register today dto) t k = elim (Bool-cases (dto.start_date == today)) [
  | inl x ↦
      moved (register today dto) t (read_car dto.car_id t) (simp (x, at_ready) refl)
        (read_car-Known (register today dto) dto.car_id t k (λ car y same. (ground arith, same)))
  | inr x ↦
      moved (register today dto) t (refused rental_must_start_today) (simp (x, at_ready) refl) tt
]
ready-Known (finish today rental_id) t k = elim (Option-cases (find_rental rental_id t.rentals)) [
  | inl x ↦
      moved (finish today rental_id) t (refused (rental_not_found rental_id))
        (simp (x, at_ready) refl) tt
  | inr (r, x) ↦
      moved (finish today rental_id) t (candidate r) (simp (x, at_ready) refl) (r, x, refl)
]

candidate-Known :
    (call : Call) (r : Rental) (t : Tables)
    → IsConsistent t
    → IsCandidate call r t
    → Known call (read_car r.car_id t) t
candidate-Known (finish today rental_id) r t k (r', there, same) =
    read_car-Known (finish today rental_id) r.car_id t k (λ car x e. (r', there, same ∙ e))
candidate-Known (add dto) r t k h = absurd h
candidate-Known (update car_id dto) r t k h = absurd h
candidate-Known (delete instant car_id) r t k h = absurd h
candidate-Known (register today dto) r t k h = absurd h

locked-Known :
    (call : Call) (car : Car) (t : Tables)
    → IsLive car t
    → IsAbout call car t
    → Known call (at_locked call car t) t
locked-Known (add dto) car t live h = absurd h
locked-Known (update car_id dto) car t live h =
    elim (Option-cases (illegal car.status (new_status (actual car dto)))) [
      | inl x ↦
          moved (update car_id dto) t (written_update car) (simp (x, at_locked) refl) (live, (h, x))
      | inr (new, x) ↦
          moved (update car_id dto) t (refused (car_status_transition car.status new))
            (simp (x, at_locked) refl) tt
    ]
locked-Known (delete instant car_id) car t live h = elim (Option-cases (active_of car_id t)) [
  | inl x ↦
      moved (delete instant car_id) t (written_retired car) (simp (x, at_locked) refl)
        (live, (h, subst (λ i. active_of i t ≡ none) h x))
  | inr (r, x) ↦
      moved (delete instant car_id) t (refused (car_has_active_rental car_id))
        (simp (x, at_locked) refl) tt
]
locked-Known (register today dto) car t live (starts, same) =
    elim (Bool-cases (status_eq car.status available)) [
      | inr x ↦
          moved (register today dto) t
            (refused (car_not_available dto.car_id (has_status car.status)))
            (simp (x, at_locked) refl) tt
      | inl x ↦ elim (Option-cases (active_of car.id t)) [
        | inl y ↦
            moved (register today dto) t (written_rental car) (simp (x, y, at_locked) refl)
              (live, (starts, same, x, y))
        | inr (r, y) ↦
            moved (register today dto) t (refused (car_not_available dto.car_id has_active_rental))
              (simp (x, y, at_locked) refl) tt
      ]
    ]
locked-Known (finish today rental_id) car t live (r, there, same) =
    elim (Option-cases r.returned_date) [
      | inr (d, x) ↦
          moved (finish today rental_id) t (refused (rental_already_ended rental_id))
            (simp (there, x, at_locked, return_tests) refl) tt
      | inl x ↦ elim (Bool-cases (ltb today r.start_date)) [
        | inl y ↦
            moved (finish today rental_id) t (refused return_before_start)
              (simp (there, x, y, at_locked, return_tests) refl) tt
        | inr y ↦
            moved (finish today rental_id) t (written_return r car)
              (simp (there, x, y, at_locked, return_tests) refl) (live, (there, same, x, y))
      ]
    ]

-- A statement keeps what is known true.
pub react-Known :
    (call : Call) (p : Point) (t : Tables)
    → IsConsistent t
    → Known call p t
    → Known call (react call t p) t
react-Known call ready t k h = ready-Known call t k
react-Known call (candidate r) t k h = candidate-Known call r t k h
react-Known call (locked car) t k (live, h) = locked-Known call car t live h
react-Known call written_car t k h = h
react-Known call (written_update car) t k h = h
react-Known call (written_retired car) t k h = h
react-Known call (written_rental car) t k h = h
react-Known call (written_return r car) t k h = h
react-Known call (refused e) t k h = h
react-Known call committed t k h = h
react-Known call aborted t k h = h
