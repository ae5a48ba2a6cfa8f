-- ===== src/Fleet/Revision.antt =====
-- What `update_car` promises, from the car and the body alone: neither a list of assignments nor a table
-- of the targets of a status.
use drive_now.Base.{
  ℕ, ◌≡◌, refl, ap, ◌∙◌, inl, inr, Bool, true, false, not, ◌||◌, Option, none, some, List, [], ◌∷◌,
  arith, if◌then◌else◌, keep, Option-cases, String, eq_iff, ◌==◌, map,
}
use drive_now.Base.Sorting.{length-sort_by}
use text.Mathlib.Text.{◌==◌ as str_eq}
use drive_now.Models.{CarStatus, available, in_use, under_maintenance, status_eq, Car}
use drive_now.Models.Tables.{Tables, put_car, updated_car}
use drive_now.Schemas.{CarUpdate}
use drive_now.Services.Errors.{car_not_found, car_status_transition}
use drive_now.Services.Cars.{
  Assignment, set_model, set_year, set_status, Update, same, changed, requested, actual, differs,
  new_status, illegal, set_all, optional, changed_names, str_le, field,
}
use drive_now.Repositories.Cars.{find_live}
use drive_now.Fleet
use drive_now.Fleet.{Verdict, accepts, refuses, on_found}

abbrev pub or_else {ℓ} : {A : Type ℓ} → Option A → A → A
or_else none b = b
or_else (some a) b = a

-- The car with every field that the body sent.
abbrev pub overridden : Car → CarUpdate → Car
overridden car dto = record car {
  model = or_else dto.model car.model;
  year = or_else dto.year car.year;
  status = or_else dto.status car.status;
}

str_eq-eq : (a b : String) → str_eq a b ≡ true → a ≡ b
str_eq-eq a b h = (eq_iff a b).0 h

-- Only the assignments that change something are made, and they suffice.
pub set_all-actual :
    (car : Car) (dto : CarUpdate) → set_all car (actual car dto) ≡ overridden car dto
unfolding actual requested
set_all-actual car dto = overriding dto.model dto.year dto.status
  where
    overriding :
        (m : Option String) (y : Option ℕ) (s : Option CarStatus)
        → set_all car (
            keep
              (differs car)
              (optional set_model m (optional set_year y (optional set_status s []))))
          ≡ record car {
            model = or_else m car.model;
            year = or_else y car.year;
            status = or_else s car.status;
          }
    overriding none y s = ground arith
    overriding (some m) y s = ground (arith, str_eq-eq car.model m)

pub new_status-actual :
    (car : Car) (dto : CarUpdate)
    → new_status (actual car dto)
      ≡ elim dto.status [ none ↦ none | some s ↦ if status_eq car.status s then none else some s ]
unfolding actual requested
new_status-actual car dto = ground arith

-- Whether the body sends another value than the car has.
abbrev pub sends_other {ℓ} : {A : Type ℓ} → (A → A → Bool) → A → Option A → Bool
sends_other eq old none = false
sends_other eq old (some new) = not (eq old new)

abbrev name_if : Bool → String → List String → List String
name_if test name rest = if test then name ∷ rest else rest

-- The names of the fields that change, in alphabetical order.
abbrev pub changed_fields : Car → CarUpdate → List String
changed_fields car dto = name_if (sends_other str_eq car.model dto.model) "model" (
    name_if (sends_other status_eq car.status dto.status) "status"
      (name_if (sends_other ◌==◌ car.year dto.year) "year" []))

-- A change of the status from or to `in_use`.
abbrev pub forbidden : CarStatus → Option CarStatus → Option CarStatus
forbidden old none = none
forbidden old (some new) =
    if status_eq old new
    then none
    else if status_eq old in_use || status_eq new in_use
    then some new
    else none

abbrev pub overwrite : (now : ℕ) → Car → CarUpdate → List String → Tables → Verdict Update
overwrite now car dto [] t = accepts (same car) t
overwrite now car dto (f ∷ fs) t =
    let car' = updated_car now (overridden car dto) in
    accepts (changed car' (f ∷ fs)) (record t { cars = put_car car' t.cars })

abbrev pub revise_car : (now : ℕ) → Car → CarUpdate → Tables → Verdict Update
revise_car now car dto t = elim (forbidden car.status dto.status) [
  | some new ↦ refuses (car_status_transition car.status new)
  | none ↦ overwrite now car dto (changed_fields car dto) t
]

unfoldable pub revise : (now car_id : ℕ) → CarUpdate → Tables → Verdict Update
revise now car_id dto t =
    on_found (find_live car_id t.cars) (car_not_found car_id) (λ car. revise_car now car dto t)

changed_names-actual :
    (car : Car) (dto : CarUpdate) → changed_names (actual car dto) ≡ changed_fields car dto
unfolding actual requested
changed_names-actual car dto = naming dto.model dto.year dto.status
  where
    naming :
        (m : Option String) (y : Option ℕ) (s : Option CarStatus)
        → changed_names (
            keep
              (differs car)
              (optional set_model m (optional set_year y (optional set_status s []))))
          ≡ changed_fields car (record { model = m; year = y; status = s })
    naming none none none = refl
    naming none none (some s) = ground arith
    naming none (some y) none = ground arith
    naming none (some y) (some s) = ground arith
    naming (some m) none none = ground arith
    naming (some m) none (some s) = ground arith
    naming (some m) (some y) none = ground arith
    naming (some m) (some y) (some s) = ground arith

illegal-forbidden :
    (car : Car) (dto : CarUpdate)
    → illegal car.status (new_status (actual car dto)) ≡ forbidden car.status dto.status
illegal-forbidden car dto =
    ap (illegal car.status) (new_status-actual car dto) ∙ tested car.status dto.status
  where
    tested :
        (old : CarStatus) (o : Option CarStatus)
        → illegal old (elim o [ none ↦ none | some s ↦ if status_eq old s then none else some s ])
          ≡ forbidden old o
    tested available o = ground arith
    tested in_use o = ground arith
    tested under_maintenance o = ground arith

save-revise :
    (now : ℕ) (car : Car) (dto : CarUpdate) (assigned : List Assignment) (names : List String)
    (t : Tables)
    → changed_names assigned ≡ names
    → illegal car.status (new_status assigned) ≡ forbidden car.status dto.status
    → set_all car assigned ≡ overridden car dto
    → Fleet.save_actual now car assigned t ≡ elim (forbidden car.status dto.status) [
      | some new ↦ refuses (car_status_transition car.status new)
      | none ↦ overwrite now car dto names t
    ]
save-revise now car dto [] names t n l o = rw⁻¹ l (rw⁻¹ n refl)
save-revise now car dto (a ∷ rest) [] t n l o =
    absurd (ground (arith, length-sort_by str_le (field a ∷ map field rest)))
save-revise now car dto (a ∷ rest) (f ∷ fs) t n l o = λ i. elim (l i) [
  | some new ↦ refuses (car_status_transition car.status new)
  | none ↦
      let car' = updated_car now (o i) in
      accepts (changed car' (n i)) (record t { cars = put_car car' t.cars })
]

-- The promise of the assignments that are made is the one of the car and the body.
pub update-revise :
    (now car_id : ℕ) (dto : CarUpdate) (t : Tables)
    → Fleet.update now car_id dto t ≡ revise now car_id dto t
unfolding Fleet.update revise
update-revise now car_id dto t = elim (Option-cases (find_live car_id t.cars)) [
  | inl x ↦ rw (x, Fleet.update, revise) refl
  | inr (car, x) ↦
      rw (x, Fleet.update, revise)
        (save-revise now car dto (actual car dto) (changed_fields car dto) t
          (changed_names-actual car dto) (illegal-forbidden car dto) (set_all-actual car dto))
]
