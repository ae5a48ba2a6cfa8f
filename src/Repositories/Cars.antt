-- ===== src/Repositories/Cars.antt =====
-- `SqlAlchemyCarRepository`. Every read leaves the rows out that have `deleted_at` set. A key that a
-- query binds is one that an INTEGER column can hold (Api/Storable); PostgreSQL refuses any other.
use drive_now.Base.{
  ℕ, ◌+◌, Bool, not, ◌&&◌, Option, none, some, List, [], ◌∷◌, ◌==◌, leb, if◌then◌else◌, find?, keep,
}
use drive_now.Base.Sorting.{sort_by}
use drive_now.Models.{CarStatus, status_eq, Car, is_deleted}
use drive_now.Models.Tables.{Tables, insert_car, update_car, created_car, updated_car}
use drive_now.Database.{Database}
use drive_now.Messaging.{Publisher}
use drive_now.Action.{Action, ◌>>=◌, ◌>>◌, pure, select, now, lock, car_lock, assign, flush}

-- `Car.id == car_id, Car.deleted_at.is_(None)`
abbrev pub is_live_at : ℕ → Car → Bool
is_live_at car_id c = c.id == car_id && not (is_deleted c)

abbrev pub find_live : ℕ → List Car → Option Car
find_live car_id = find? (is_live_at car_id)

abbrev pub has_status : Option CarStatus → Car → Bool
has_status none c = not (is_deleted c)
has_status (some s) c = not (is_deleted c) && status_eq c.status s

abbrev pub by_id : Car → Car → Bool
by_id a b = leb a.id b.id

-- The rows that `list` selects, by ascending id.
unfoldable pub listed : Option CarStatus → Tables → List Car
listed status t = sort_by by_id (keep (has_status status) t.cars)

-- One more car in the group of its status.
abbrev pub add_to_group : CarStatus → List (CarStatus × ℕ) → List (CarStatus × ℕ)
add_to_group s [] = (s, 1) ∷ []
add_to_group s ((s', n) ∷ groups) =
    if status_eq s' s then (s', n + 1) ∷ groups else (s', n) ∷ add_to_group s groups

abbrev pub groups : List Car → List (CarStatus × ℕ)
groups [] = []
groups (c ∷ cs) = let rest = groups cs in if is_deleted c then rest else add_to_group c.status rest

module _ {D : Database} {P : Publisher} where
  -- `session.add` and a flush, which assigns the primary key and the server defaults.
  unfoldable pub add : Car → Action D P Car
  add car w =
      let row = record car { id = D.next_car_id w.session } in
      (do assign (insert_car row); flush; n ← now; pure (created_car n row)) w

  unfoldable pub get_by_id : ℕ → Action D P (Option Car)
  get_by_id car_id = select (λ t. find_live car_id t.cars)

  -- `with_for_update`, and `populate_existing`: what comes back is the row, not a stale object.
  unfoldable pub get_by_id_for_update : ℕ → Action D P (Option Car)
  get_by_id_for_update car_id = do lock (car_lock car_id); select (λ t. find_live car_id t.cars)

  unfoldable pub list : Option CarStatus → Action D P (List Car)
  unfolding listed
  list status = select (listed status)

  -- The assignment of attributes to a loaded car; it is written by the next flush, which also sets
  -- `updated_at`.
  unfoldable pub set_attributes : Car → Action D P Car
  set_attributes car = do n ← now; assign (update_car car); pure (updated_car n car)

  unfoldable pub update : Car → Action D P Car
  update car = do flush; pure car

  -- `instant` is `datetime.now(UTC)`.
  unfoldable pub soft_delete : ℕ → Car → Action D P Car
  unfolding set_attributes
  soft_delete instant car = do
    car' ← set_attributes (record car { deleted_at = some instant })
    flush
    pure car'

  unfoldable pub count_by_status : Action D P (List (CarStatus × ℕ))
  count_by_status = select (λ t. groups t.cars)
