-- ===== src/Repositories/Rentals.antt =====
-- `SqlAlchemyRentalRepository`.
use drive_now.Base.{ℕ, Bool, Option, List, leb, keep, length}
use drive_now.Base.Sorting.{sort_by, first}
use drive_now.Models.{Rental, is_active}
use drive_now.Models.Tables.{
  Tables, insert_rental, update_rental, created_rental, updated_rental, find_rental, is_open_for,
}
use drive_now.Database.{Database}
use drive_now.Messaging.{Publisher}
use drive_now.Action.{Action, ◌>>=◌, ◌>>◌, pure, select, now, lock, rental_lock, assign, flush}

abbrev pub by_id : Rental → Rental → Bool
by_id a b = leb a.id b.id

abbrev pub by_id_desc : Rental → Rental → Bool
by_id_desc a b = leb b.id a.id

-- The open rental of a car with the greatest id.
unfoldable pub active_of : ℕ → Tables → Option Rental
active_of car_id t = first (sort_by by_id_desc (keep (is_open_for car_id) t.rentals))

unfoldable pub all_active : Tables → List Rental
all_active t = sort_by by_id (keep is_active t.rentals)

module _ {D : Database} {P : Publisher} where
  unfoldable pub add : Rental → Action D P Rental
  add rental w =
      let row = record rental { id = D.next_rental_id w.session } in
      (do assign (insert_rental row); flush; n ← now; pure (created_rental n row)) w

  unfoldable pub get_by_id : ℕ → Action D P (Option Rental)
  get_by_id rental_id = select (λ t. find_rental rental_id t.rentals)

  unfoldable pub get_by_id_for_update : ℕ → Action D P (Option Rental)
  get_by_id_for_update rental_id = do
    lock (rental_lock rental_id)
    select (λ t. find_rental rental_id t.rentals)

  unfoldable pub get_active_by_car : ℕ → Action D P (Option Rental)
  get_active_by_car car_id = select (active_of car_id)

  unfoldable pub list_active : Action D P (List Rental)
  list_active = select all_active

  -- The assignment of attributes to a loaded rental.
  unfoldable pub set_attributes : Rental → Action D P Rental
  set_attributes rental = do n ← now; assign (update_rental rental); pure (updated_rental n rental)

  unfoldable pub update : Rental → Action D P Rental
  update rental = do flush; pure rental

  unfoldable pub count_active : Action D P ℕ
  count_active = select (λ t. length (keep is_active t.rentals))
