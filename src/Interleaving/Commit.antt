-- ===== src/Interleaving/Commit.antt =====
-- What a commit leaves as it is for the other transactions.
use drive_now.Base.{ℕ, ◌≡◌, refl, false, none, some, List, [], ◌∷◌, ◌==◌}
use drive_now.Models.{available, in_use, Car, Rental}
use drive_now.Models.Tables.{
  Tables, find_car, find_rental, put_rental, apply_all, created_rental, created_car, updated_rental,
}
use drive_now.Models.Tables.Laws.{find_rental_own_key}
use drive_now.Services.Cars.{Assignment, set_all, actual, new_car}
use drive_now.Services.Rentals.{new_rental}
use drive_now.Fleet.Consistent.{IsConsistent}
use drive_now.Fleet.Invariant.{set_all-id}
use drive_now.History.{Call, add, update, delete, register, finish}
use drive_now.Interleaving.Points.{
  Point, ready, candidate, locked, written_car, written_update, written_retired, written_rental,
  written_return, refused, committed, aborted, holds_car,
}
use drive_now.Interleaving.Writes.{
  Job, changes, add_writes, update_writes, retire_writes, rent_writes, return_writes,
  update_changes,
}
use drive_now.Interleaving.Facts.{Known, MayReturn}
use drive_now.Interleaving.Frame.{
  Frames, Frames-refl, Frames-trans, insert_car-Frames, insert_rental-Frames, put_rental-Frames,
  status_changes-Frames, put-Frames,
}

module _ (now c : ℕ) (t : Tables) where
  add-Frames :
      (call : Call) (key : ℕ)
      → find_car key t.cars ≡ none
      → Frames c t (apply_all now (add_writes call key) t)
  add-Frames (add dto) key new =
      insert_car-Frames c (created_car now (record (new_car dto) { id = key })) t new
  add-Frames (update car_id dto) key new = Frames-refl c t
  add-Frames (delete instant car_id) key new = Frames-refl c t
  add-Frames (register today dto) key new = Frames-refl c t
  add-Frames (finish today rental_id) key new = Frames-refl c t

  update_changes-Frames :
      (car : Car) (assigned : List Assignment)
      → (car.id == c) ≡ false
      → Frames c t (apply_all now (update_changes car assigned) t)
  update_changes-Frames car [] other = Frames-refl c t
  update_changes-Frames car (a ∷ rest) other =
      put-Frames now c car t other (set_all car (a ∷ rest)) (set_all-id car (a ∷ rest))

  update-Frames :
      (call : Call) (car : Car)
      → (car.id == c) ≡ false
      → Frames c t (apply_all now (update_writes call car) t)
  update-Frames (update car_id dto) car other = update_changes-Frames car (actual car dto) other
  update-Frames (add dto) car other = Frames-refl c t
  update-Frames (delete instant car_id) car other = Frames-refl c t
  update-Frames (register today dto) car other = Frames-refl c t
  update-Frames (finish today rental_id) car other = Frames-refl c t

  retire-Frames :
      (call : Call) (car : Car)
      → (car.id == c) ≡ false
      → Frames c t (apply_all now (retire_writes call car) t)
  retire-Frames (delete instant car_id) car other =
      put-Frames now c car t other (record car { deleted_at = some instant }) refl
  retire-Frames (add dto) car other = Frames-refl c t
  retire-Frames (update car_id dto) car other = Frames-refl c t
  retire-Frames (register today dto) car other = Frames-refl c t
  retire-Frames (finish today rental_id) car other = Frames-refl c t

  rent-Frames :
      (call : Call) (key : ℕ) (car : Car)
      → find_rental key t.rentals ≡ none
      → (car.id == c) ≡ false
      → Frames c t (apply_all now (rent_writes call key car) t)
  rent-Frames (register today dto) key car new other =
      let x = created_rental now (record (new_rental car dto) { id = key }) in
      Frames-trans (insert_rental-Frames c x t new other)
        (status_changes-Frames now c car (record t { rentals = x ∷ t.rentals }) other in_use)
  rent-Frames (add dto) key car new other = Frames-refl c t
  rent-Frames (update car_id dto) key car new other = Frames-refl c t
  rent-Frames (delete instant car_id) key car new other = Frames-refl c t
  rent-Frames (finish today rental_id) key car new other = Frames-refl c t

  return-Frames :
      (call : Call) (r : Rental) (car : Car)
      → IsConsistent t
      → MayReturn call r car t
      → (car.id == c) ≡ false
      → Frames c t (apply_all now (return_writes call r car) t)
  return-Frames (finish today rental_id) r car k (there, same, _, _) other =
      let x = updated_rental now (record r { returned_date = some today }) in
      Frames-trans
        (put_rental-Frames x r t k.rows.rental_keys
          (find_rental_own_key rental_id t.rentals r there) refl c (rw same other))
        (status_changes-Frames now c car (record t { rentals = put_rental x t.rentals }) other
          available)
  return-Frames (add dto) r car k h other = Frames-refl c t
  return-Frames (update car_id dto) r car k h other = Frames-refl c t
  return-Frames (delete instant car_id) r car k h other = Frames-refl c t
  return-Frames (register today dto) r car k h other = Frames-refl c t

-- A commit does not touch the cars that its transaction does not hold.
pub commit-Frames :
    (q : Job) (p : Point) (t : Tables) (c : ℕ)
    → IsConsistent t
    → Known q.call p t
    → find_car q.car_key t.cars ≡ none
    → find_rental q.rental_key t.rentals ≡ none
    → ((d : ℕ) → holds_car p ≡ some d → (d == c) ≡ false)
    → Frames c t (apply_all q.now (changes q p) t)
commit-Frames q written_car t c k h new_car new_rental other =
    add-Frames q.now c t q.call q.car_key new_car
commit-Frames q (written_update car) t c k h new_car new_rental other =
    update-Frames q.now c t q.call car (other car.id refl)
commit-Frames q (written_retired car) t c k h new_car new_rental other =
    retire-Frames q.now c t q.call car (other car.id refl)
commit-Frames q (written_rental car) t c k h new_car new_rental other =
    rent-Frames q.now c t q.call q.rental_key car new_rental (other car.id refl)
commit-Frames q (written_return r car) t c k h new_car new_rental other =
    return-Frames q.now c t q.call r car k h.1 (other car.id refl)
commit-Frames q ready t c k h new_car new_rental other = Frames-refl c t
commit-Frames q (candidate r) t c k h new_car new_rental other = Frames-refl c t
commit-Frames q (locked car) t c k h new_car new_rental other = Frames-refl c t
commit-Frames q (refused e) t c k h new_car new_rental other = Frames-refl c t
commit-Frames q committed t c k h new_car new_rental other = Frames-refl c t
commit-Frames q aborted t c k h new_car new_rental other = Frames-refl c t
