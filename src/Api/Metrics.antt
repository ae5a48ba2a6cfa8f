-- ===== src/Api/Metrics.antt =====
-- `GET /metrics` of app/api/metrics.py: the gauges that a scrape sets from the tables.
pub mod Balance
use drive_now.Base.{
  ℕ, ◌+◌, ◌≡◌, refl, some, List, [], ◌∷◌, arith, if◌then◌else◌, count, length-keep,
}
use drive_now.Models.{CarStatus, status_eq, Car, is_active}
use drive_now.Database.{Database}
use drive_now.Messaging.{Publisher}
use drive_now.Action.{Action, ok, World, resume, ◌>>=◌, pure}
use drive_now.Repositories.Cars
use drive_now.Repositories.Cars.{groups, add_to_group, has_status}
use drive_now.Repositories.Rentals

-- `CARS` by its label, and `ONGOING_RENTALS`.
pub record Gauges : Type 0 where
  pub cars : CarStatus → ℕ
  pub ongoing_rentals : ℕ

-- `by_status.get(status, 0)`
abbrev pub get_count : CarStatus → List (CarStatus × ℕ) → ℕ
get_count s [] = 0
get_count s ((s', n) ∷ rest) = if status_eq s' s then n else get_count s rest

module _ {D : Database} {P : Publisher} where
  -- The loop over `CarStatus` sets the gauge of every status.
  unfoldable pub metrics : Action D P Gauges
  metrics = do
    by_status ← Cars.count_by_status
    active ← Rentals.count_active
    pure (record { cars = λ s. get_count s by_status; ongoing_rentals = active })

get_count-add_to_group :
    (s s' : CarStatus) (gs : List (CarStatus × ℕ))
    → get_count s (add_to_group s' gs) ≡ get_count s gs + (if status_eq s' s then 1 else 0)
get_count-add_to_group s s' [] = ground arith
get_count-add_to_group s s' ((s'', n) ∷ gs) = ground (arith, get_count-add_to_group s s' gs)

get_count-groups :
    (s : CarStatus) (cs : List Car) → get_count s (groups cs) ≡ count (has_status (some s)) cs
get_count-groups s [] = refl
get_count-groups s (c ∷ cs) =
    ground (arith, get_count-groups s cs, get_count-add_to_group s c.status (groups cs))

-- A scrape changes nothing, and sets the gauge of each status to the number of live cars that have
-- it, and that of the ongoing rentals to the number of active rentals.
pub metrics-exact :
    {D : Database} {P : Publisher} (w : World D P)
    → (g : Gauges) × (metrics w ≡ (ok g, w))
      × ((s : CarStatus) → g.cars s ≡ count (has_status (some s)) (D.view w.session).visible.cars)
      × (g.ongoing_rentals ≡ count is_active (D.view w.session).visible.rentals)
unfolding metrics resume Cars.count_by_status Rentals.count_active
metrics-exact {D = D} w =
    let t = (D.view w.session).visible in
    (_, refl, (λ s. get_count-groups s t.cars), length-keep is_active t.rentals)
