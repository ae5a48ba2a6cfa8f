-- ===== src/Api/Metrics/Balance.antt =====
-- The gauge of the cars in use against that of the ongoing rentals, at consistent tables.
use drive_now.Base.{
  ℕ, ◌+◌, ◌≡◌, ◌≢◌, refl, sym, ◌∙◌, none, some, List, [], ◌∷◌, arith, ◌==◌, if◌then◌else◌, count,
  All,
}
use drive_now.Models.{in_use, Car, Rental, is_active}
use drive_now.Models.Tables.{Tables, find_car, open_count, CarKeys, RentalRow}
use drive_now.Database.{Database, IsClean}
use drive_now.Messaging.{Publisher}
use drive_now.Action.{World, ok}
use drive_now.Repositories.Cars.{has_status}
use drive_now.Fleet.Consistent.{IsConsistent}
use drive_now.Api.Metrics.{Gauges, metrics, metrics-exact}

-- How many rows have a key.
abbrev with_key : ℕ → List Car → ℕ
with_key i = count (λ (c : Car). c.id == i)

with_key-absent : (i : ℕ) (cs : List Car) → find_car i cs ≡ none → with_key i cs ≡ 0
with_key-absent i [] e = refl
with_key-absent i (c ∷ cs) e = ground (arith, with_key-absent i cs)

with_key-present : (i : ℕ) (cs : List Car) → CarKeys cs → find_car i cs ≢ none → with_key i cs ≡ 1
with_key-present i [] k h = absurd (h refl)
with_key-present i (c ∷ cs) k h =
    ground (arith, with_key-present i cs k.1, with_key-absent c.id cs k.0)

-- The open rentals of some cars.
abbrev open_of : List Car → List Rental → ℕ
open_of [] rs = 0
open_of (c ∷ cs) rs = open_count c.id rs + open_of cs rs

open_of-none : (cs : List Car) → open_of cs [] ≡ 0
open_of-none [] = refl
open_of-none (c ∷ cs) = omega (arith, open_of-none cs)

open_of-cons :
    (cs : List Car) (r : Rental) (rs : List Rental)
    → open_of cs (r ∷ rs) ≡ open_of cs rs + (if is_active r then with_key r.car_id cs else 0)
open_of-cons [] r rs = ground arith
open_of-cons (c ∷ cs) r rs = ground (arith, open_of-cons cs r rs)

-- Every open rental is one of a car.
open_of-is_active :
    (cs : List Car) (rs : List Rental)
    → CarKeys cs
    → All (RentalRow cs) rs
    → open_of cs rs ≡ count is_active rs
open_of-is_active cs [] k rows = open_of-none cs
open_of-is_active cs (r ∷ rs) k (row, rows) = ground (
  arith,
  open_of-cons cs r rs,
  open_of-is_active cs rs k rows,
  with_key-present r.car_id cs k row.0,
)

-- A car is found by its own key.
found_own : (cs : List Car) → CarKeys cs → All (λ (c : Car). find_car c.id cs ≡ some c) cs
found_own [] k = tt
found_own (c ∷ cs) k = (ground arith, later cs (found_own cs k.1))
  where
    later :
        (xs : List Car)
        → All (λ (x : Car). find_car x.id cs ≡ some x) xs
        → All (λ (x : Car). find_car x.id (c ∷ cs) ≡ some x) xs
    later [] h = tt
    later (x ∷ xs) (h, hs) = (ground (arith, k.0), later xs hs)

open_of-load :
    (t : Tables) (cs : List Car)
    → IsConsistent t
    → All (λ (c : Car). find_car c.id t.cars ≡ some c) cs
    → open_of cs t.rentals ≡ count (has_status (some in_use)) cs
open_of-load t [] k h = refl
open_of-load t (c ∷ cs) k (h, hs) = ground (arith, open_of-load t cs k hs, k.occupied c.id)

-- At consistent tables between transactions, a scrape shows as many cars in use as ongoing rentals.
pub metrics-balance :
    {D : Database} {P : Publisher} (t : Tables) (w : World D P)
    → IsClean t (D.view w.session)
    → IsConsistent t
    → (g : Gauges) × (metrics w ≡ (ok g, w)) × (g.cars in_use ≡ g.ongoing_rentals)
metrics-balance t w clean k =
    let (g, e, by_status, ongoing) = metrics-exact w in
    let all_open = open_of-is_active t.cars t.rentals k.rows.car_keys k.rows.rental_rows in
    let in_cars = open_of-load t t.cars k (found_own t.cars k.rows.car_keys) in
    (g, e, by_status in_use ∙ rw clean.visible (sym in_cars ∙ all_open) ∙ sym ongoing)
