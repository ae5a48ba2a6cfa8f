-- ===== src/Lifecycle/Cars.antt =====
-- Managing the fleet by `CarService`.
use drive_now.Base.{
  ℕ, ◌≡◌, ◌≢◌, ◌↔◌, sym, ◌∙◌, ap, subst, inl, inr, some, none, arith, Option, if◌then◌else◌,
  Option-cases,
}
use drive_now.Models.{CarStatus, in_use, status_eq, Car}
use drive_now.Models.Tables.{Tables, find_car}
use drive_now.Database.{Database, IsDatabase, IsUp, IsClean}
use drive_now.Messaging.{Publisher}
use drive_now.Action.{ok, raised, domain, World}
use drive_now.Schemas.{CarUpdate}
use drive_now.Services.Errors.{car_status_transition, car_has_active_rental}
use drive_now.Services.Cars.{update_car, delete_car, illegal}
use drive_now.Repositories.Cars.{find_live}
use drive_now.Repositories.Rentals.{active_of}
use drive_now.Repositories.Lookup.{active_of-eq-none, active_of-eq-some}
use drive_now.Fleet
use drive_now.Fleet.{Verdict, accepts, refuses}
use drive_now.Fleet.Consistent.{IsConsistent}
use drive_now.Fleet.Invariant.{found_car}
use drive_now.Refinement.Cars.{updated}
use drive_now.Refinement.Total.{answer, update_car-answer, delete_car-answer}
use drive_now.Lifecycle.Outcome.{answer-refuses, answer-accepts}
use drive_now.Fleet.Revision.{or_else, overridden, new_status-actual}
use drive_now.Lifecycle.Updating.{Forbidden, update-Updated, update-refused}

in_use-kept :
    (old : CarStatus) (o : Option CarStatus)
    → illegal old (elim o [ none ↦ none | some s ↦ if status_eq old s then none else some s ])
      ≡ none
    → (or_else o old ≡ in_use) ↔ (old ≡ in_use)
in_use-kept old o e = ((λ f. ground arith), λ f. ground arith)

-- On consistent tables a live car is in use if and only if it has an active rental.
pub in_use-active :
    (i : ℕ) (car : Car) (t : Tables)
    → IsConsistent t
    → find_live i t.cars ≡ some car
    → (active_of i t ≢ none) ↔ (car.status ≡ in_use)
in_use-active i car t k e =
    let (found, key, live) = found_car i car t k e in
    let held : find_car i t.cars ≡ some car = subst (λ j. find_car j t.cars ≡ some car) key found in
    elim (Option-cases (active_of i t)) [
      | inl x ↦
          ((λ h. absurd (h x)), λ u. absurd (ground (arith, active_of-eq-none i t x, k.occupied i)))
      | inr (r, x) ↦ ((λ h. ground (arith, active_of-eq-some i t r x, k.occupied i)), λ u. λ y. cc)
    ]

delete-refused :
    (now instant car_id : ℕ) (t : Tables)
    → IsConsistent t
    → (Fleet.delete now instant car_id t ≡ refuses (car_has_active_rental car_id))
      ↔ ((car : Car) × (find_live car_id t.cars ≡ some car) × (car.status ≡ in_use))
unfolding Fleet.delete
delete-refused now instant car_id t k = elim (Option-cases (find_live car_id t.cars)) [
  | inl x ↦ ((λ e. absurd (ground arith)), λ f. absurd (cc))
  | inr (car, x) ↦ (
    (λ e. (car, x, (in_use-active car_id car t k x).0 (λ y. ground arith))),
    λ f. elim (Option-cases (active_of car_id t)) [
      | inr (r, y) ↦ ground arith
      | inl y ↦ absurd ((in_use-active car_id f.0 t k f.1).1 f.2 y)
    ],
  )
]

module _ {D : Database} {P : Publisher} (L : IsDatabase D) (up : IsUp D) (t : Tables)
    (w : World D P) (clean : IsClean t (D.view w.session)) (k : IsConsistent t) where
  -- With the connection up, at consistent tables between transactions: a car that `update_car`
  -- returns is the live row with every field that the body sent replaced and all else but
  -- `updated_at` kept, and it is in use if and only if it was.
  pub update_car-overrides :
      (car_id : ℕ) (dto : CarUpdate) (car' : Car)
      → (update_car car_id dto w).0 ≡ ok car'
      → (car : Car) × (find_live car_id t.cars ≡ some car)
        × (record car' { updated_at = car.updated_at } ≡ overridden car dto)
        × ((car'.status ≡ in_use) ↔ (car.status ≡ in_use))
  update_car-overrides car_id dto car' e =
      let (u, t', p, q) =
        answer-accepts updated _ car' (sym (update_car-answer L up car_id dto t w clean k) ∙ e) in
      let (car, x, legal, fields) = update-Updated _ car_id dto t u t' p in
      let fields' = ap (λ (c : Car). record c { updated_at = car.updated_at }) q ∙ fields in
      (
        car,
        x,
        fields',
        subst (λ s. (s ≡ in_use) ↔ (car.status ≡ in_use)) (sym (ap (λ (c : Car). c.status) fields'))
            (in_use-kept car.status dto.status
              (sym (ap (illegal car.status) (new_status-actual car dto)) ∙ legal)),
      )

  -- With the connection up, at consistent tables between transactions: `update_car` raises
  -- `CarStatusTransitionError` from one status to another if and only if the live car has the
  -- first, the body sends the second, they differ and one of them is in_use.
  pub update_car-Forbidden :
      (car_id : ℕ) (dto : CarUpdate) (old new : CarStatus)
      → ((update_car car_id dto w).0 ≡ raised (domain (car_status_transition old new))) ↔ (
          (car : Car) × (find_live car_id t.cars ≡ some car)
          × (car.status ≡ old)
          × (dto.status ≡ some new)
          × Forbidden old new)
  update_car-Forbidden car_id dto old new = (
    λ e.
        (update-refused _ car_id dto t old new).0
          (answer-refuses _ _ _ (sym (update_car-answer L up car_id dto t w clean k) ∙ e)),
    λ f.
        update_car-answer L up car_id dto t w clean k
        ∙ ap (answer updated) ((update-refused _ car_id dto t old new).1 f),
  )

  -- With the connection up, at consistent tables between transactions: `delete_car` raises
  -- `CarHasActiveRentalError` for the car if and only if the car is live and in use.
  pub delete_car-in_use :
      (instant car_id : ℕ)
      → ((delete_car instant car_id w).0 ≡ raised (domain (car_has_active_rental car_id)))
        ↔ ((car : Car) × (find_live car_id t.cars ≡ some car) × (car.status ≡ in_use))
  delete_car-in_use instant car_id = (
    λ e.
        (delete-refused _ instant car_id t k).0
          (answer-refuses _ _ _ (sym (delete_car-answer L up instant car_id t w clean k) ∙ e)),
    λ f.
        delete_car-answer L up instant car_id t w clean k
        ∙ ap (answer (λ car. car)) ((delete-refused _ instant car_id t k).1 f),
  )
