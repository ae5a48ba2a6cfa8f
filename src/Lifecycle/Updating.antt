-- ===== src/Lifecycle/Updating.antt =====
-- What an update of a car changes.
use drive_now.Base.{
  ℕ, ◌≡◌, ◌≢◌, ◌↔◌, ◌⊎◌, refl, sym, ap, subst, ◌∙◌, inl, inr, Option, none, some, List, [], ◌∷◌,
  arith, if◌then◌else◌, Option-cases,
}
use drive_now.Models.{CarStatus, available, in_use, under_maintenance, status_eq, Car}
use drive_now.Models.Tables.{Tables}
use drive_now.Schemas.{CarUpdate}
use drive_now.Services.Errors.{car_status_transition}
use drive_now.Services.Cars.{Assignment, Update, actual, new_status, illegal, set_all}
use drive_now.Repositories.Cars.{find_live}
use drive_now.Refinement.Cars.{updated}
use drive_now.Fleet
use drive_now.Fleet.Revision.{overridden, set_all-actual, new_status-actual}
use drive_now.Fleet.{Verdict, accepts, refuses}

save_actual-accepted :
    (now : ℕ) (car : Car) (assigned : List Assignment) (t : Tables) (u : Update) (t' : Tables)
    → Fleet.save_actual now car assigned t ≡ accepts u t'
    → (illegal car.status (new_status assigned) ≡ none)
      × (record (updated u) { updated_at = car.updated_at }
          ≡ record (set_all car assigned) { updated_at = car.updated_at })
save_actual-accepted now car [] t u t' e = ground arith
save_actual-accepted now car (a ∷ rest) t u t' e =
    elim (Option-cases (illegal car.status (new_status (a ∷ rest)))) [
      | inr (new, x) ↦ absurd (ground arith)
      | inl x ↦ (x, ground arith)
    ]

-- A car that was updated.
abbrev pub Updated : ℕ → CarUpdate → Tables → Update → Tables → Type 0
Updated car_id dto t u t' =
    (car : Car) × (find_live car_id t.cars ≡ some car)
    × (illegal car.status (new_status (actual car dto)) ≡ none)
    × (record (updated u) { updated_at = car.updated_at } ≡ overridden car dto)

pub update-Updated :
    (now car_id : ℕ) (dto : CarUpdate) (t : Tables) (u : Update) (t' : Tables)
    → Fleet.update now car_id dto t ≡ accepts u t'
    → Updated car_id dto t u t'
unfolding Fleet.update
update-Updated now car_id dto t u t' e = elim (Option-cases (find_live car_id t.cars)) [
  | inl x ↦ absurd (ground arith)
  | inr (car, x) ↦
      let (legal, fields) = save_actual-accepted now car (actual car dto) t u t' (ground arith) in
      (
        car,
        x,
        legal,
        fields
            ∙ ap (λ (c : Car). record c { updated_at = car.updated_at }) (set_all-actual car dto),
      )
]

-- A status that an update may not set: into or out of `in_use`.
abbrev pub Forbidden : CarStatus → CarStatus → Type 0
Forbidden old new = (old ≢ new) × ((old ≡ in_use) ⊎ (new ≡ in_use))

illegal-Forbidden :
    (old : CarStatus) (o : Option CarStatus) (new : CarStatus)
    → illegal old (elim o [ none ↦ none | some s ↦ if status_eq old s then none else some s ])
      ≡ some new
    → (o ≡ some new) × Forbidden old new
illegal-Forbidden available o new e = (ground arith, ((λ p. ground arith), inr (ground arith)))
illegal-Forbidden in_use o new e = (ground arith, ((λ p. ground arith), inl refl))
illegal-Forbidden under_maintenance o new e =
    (ground arith, ((λ p. ground arith), inr (ground arith)))

Forbidden-illegal :
    (old new : CarStatus)
    → Forbidden old new
    → illegal old (if status_eq old new then none else some new) ≡ some new
Forbidden-illegal old new (differ, inl used) = ground arith
Forbidden-illegal old new (differ, inr used) = ground arith

save_actual-refused :
    (now : ℕ) (car : Car) (assigned : List Assignment) (t : Tables) (old new : CarStatus)
    → (Fleet.save_actual now car assigned t ≡ refuses (car_status_transition old new))
      ↔ ((car.status ≡ old) × (illegal car.status (new_status assigned) ≡ some new))
save_actual-refused now car [] t old new = ((λ e. ground arith), λ f. ground arith)
save_actual-refused now car (a ∷ rest) t old new = ((λ e. ground arith), λ f. ground arith)

pub update-refused :
    (now car_id : ℕ) (dto : CarUpdate) (t : Tables) (old new : CarStatus)
    → (Fleet.update now car_id dto t ≡ refuses (car_status_transition old new)) ↔ (
        (car : Car) × (find_live car_id t.cars ≡ some car)
        × (car.status ≡ old)
        × (dto.status ≡ some new)
        × Forbidden old new)
unfolding Fleet.update
update-refused now car_id dto t old new = (
  λ e. elim (Option-cases (find_live car_id t.cars)) [
    | inl x ↦ absurd (ground arith)
    | inr (car, x) ↦
        let (is_old, bad) =
          (save_actual-refused now car (actual car dto) t old new).0 (ground arith) in
        let (sent, forbidden) =
          illegal-Forbidden car.status dto.status new
            (sym (ap (illegal car.status) (new_status-actual car dto)) ∙ bad) in
        (car, x, is_old, sent, subst (λ s. Forbidden s new) is_old forbidden)
  ],
  λ f.
      let (car, x, is_old, sent, forbidden) = f in
      let bad =
        ap (illegal car.status) (new_status-actual car dto ∙ rw sent refl)
        ∙ Forbidden-illegal car.status new (subst (λ s. Forbidden s new) (sym is_old) forbidden) in
      let refused = (save_actual-refused now car (actual car dto) t old new).1 (is_old, bad) in
      ground arith,
)
