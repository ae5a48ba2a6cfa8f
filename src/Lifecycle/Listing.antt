-- ===== src/Lifecycle/Listing.antt =====
-- What the queries show of the fleet, and what is left of a retired car.
use drive_now.Repositories.Lookup.{find_live-put_car}
use drive_now.Base.{
  ℕ, ◌≡◌, refl, sym, ◌∙◌, ap, subst, some, none, arith, Bool, Option, List, [], ◌∷◌, ◌==◌, ◌&&◌,
  keep, count, count-keep,
}
use drive_now.Base.Sorting.{IsSorted, sort_by-IsSorted, count-sort_by}
use drive_now.Models.{CarStatus, Car}
use drive_now.Models.Tables.{Tables}
use drive_now.Database.{Database, IsDatabase, IsUp, IsClean}
use drive_now.Messaging.{Publisher}
use drive_now.Action.{ok, raised, domain, World}
use drive_now.Services.Errors.{car_not_found}
use drive_now.Services.Cars.{delete_car, list_cars}
use drive_now.Repositories.Cars
use drive_now.Repositories.Cars.{find_live, listed, has_status, by_id}
use drive_now.Fleet
use drive_now.Fleet.{Verdict, accepts, refuses}
use drive_now.Fleet.Consistent.{IsConsistent}
use drive_now.Fleet.Invariant.{delete-Keeps, found_car}
use drive_now.Fleet.Accepted.{delete-Retired}
use drive_now.Refinement.Cars.{delete_car-Fulfils, retired_report}
use drive_now.Refinement.Total.{answer, delete_car-answer}
use drive_now.Lifecycle.Outcome.{Fulfils-Returned}

-- `list_cars` changes nothing and returns the cars in ascending order of their keys; any test
-- passes as many of them as rows that are live and have the wanted status, if one is given.
pub list_cars-listed :
    {D : Database} {P : Publisher} (status : Option CarStatus) (w : World D P)
    → (cars : List Car) × (list_cars status w ≡ (ok cars, w))
      × IsSorted (λ (c : Car). c.id) cars
      × ((p : Car → Bool)
          → count p cars ≡ count (λ c. has_status status c && p c) (D.view w.session).visible.cars)
unfolding list_cars listed Cars.list
list_cars-listed {D = D} status w =
    let cs = (D.view w.session).visible.cars in
    (
      listed status (D.view w.session).visible,
      refl,
      sort_by-IsSorted (λ (c : Car). c.id) (keep (has_status status) cs),
      λ p.
          count-sort_by by_id p (keep (has_status status) cs) ∙ count-keep p (has_status status) cs,
    )

no_live :
    (i : ℕ) (status : Option CarStatus) (cs : List Car)
    → find_live i cs ≡ none
    → count (λ c. has_status status c && (c.id == i)) cs ≡ 0
no_live i none [] e = refl
no_live i (some s) [] e = refl
no_live i none (c ∷ cs) e = ground (arith, no_live i none cs)
no_live i (some s) (c ∷ cs) e = ground (arith, no_live i (some s) cs)

not_live :
    (now instant car_id : ℕ) (t : Tables) (a : Car) (t' : Tables)
    → IsConsistent t
    → Fleet.delete now instant car_id t ≡ accepts a t'
    → (find_live car_id t'.cars ≡ none) × (t'.rentals ≡ t.rentals)
not_live now instant car_id t a t' k e =
    let (car, x, _, f, g) = delete-Retired now instant car_id t a t' e in
    let (_, key, _) = found_car car_id car t k x in
    (ground (arith, find_live-put_car car_id (Fleet.retired now instant car) t.cars), ground arith)

delete-missing :
    (now instant car_id : ℕ) (t : Tables)
    → find_live car_id t.cars ≡ none
    → Fleet.delete now instant car_id t ≡ refuses (car_not_found car_id)
unfolding Fleet.delete
delete-missing now instant car_id t e = ground arith

module _ {D : Database} {P : Publisher} (L : IsDatabase D) (up : IsUp D) (t : Tables)
    (w : World D P) (clean : IsClean t (D.view w.session)) (k : IsConsistent t) where
  -- With the connection up, at consistent tables between transactions: after `delete_car` has
  -- returned, deleting the car again raises `CarNotFoundError`, no listing contains it, and the
  -- rentals are what they were.
  pub delete_car-gone :
      (instant car_id : ℕ) (car : Car) (instant' : ℕ) (status : Option CarStatus)
      → (delete_car instant car_id w).0 ≡ ok car
      → let w' = (delete_car instant car_id w).1 in
        ((delete_car instant' car_id w').0 ≡ raised (domain (car_not_found car_id)))
        × ((cars : List Car) × (list_cars status w' ≡ (ok cars, w'))
            × (count (λ c. c.id == car_id) cars ≡ 0))
        × ((D.view w'.session).visible.rentals ≡ t.rentals)
  delete_car-gone instant car_id car instant' status e =
      let w' = (delete_car instant car_id w).1 in
      let (a, t', p, _, clean', k') =
        Fulfils-Returned _ t _ (λ car. car) retired_report w (delete_car instant car_id w) car
          (delete_car-Fulfils L instant car_id t w clean) (delete-Keeps _ instant car_id t k) e in
      let (gone, kept) = not_live _ instant car_id t a t' k p in
      let (cars, f, _, members) = list_cars-listed status w' in
      (
        delete_car-answer L up instant' car_id t' w' clean' k'
            ∙ ap (answer (λ car. car)) (delete-missing _ instant' car_id t' gone),
        (
          cars,
          f,
          members (λ c. c.id == car_id)
              ∙ no_live car_id status (D.view w'.session).visible.cars (
                  subst (λ (u : Tables). find_live car_id u.cars ≡ none) (sym clean'.visible) gone),
        ),
        ap (λ (u : Tables). u.rentals) clean'.visible ∙ kept,
      )
