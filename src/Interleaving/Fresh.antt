-- ===== src/Interleaving/Fresh.antt =====
-- The keys that are not used yet, and the writes of a commit.
use drive_now.Base.{ℕ, ◌≡◌, inl, inr, false, none, List, [], ◌∷◌, arith, ◌==◌, Bool-cases, All}
use drive_now.Models.{available, in_use, CarStatus, status_eq, Car, Rental}
use drive_now.Models.Tables.{
  Tables, Change, insert_car, update_car, insert_rental, update_rental, find_car, find_rental,
  apply, apply_all, updated_car, updated_rental,
}
use drive_now.Models.Tables.Laws.{find_rental-put_rental, find_car-put_car}
use drive_now.Services.Cars.{Assignment, actual}
use drive_now.History.{Call, add, update, delete, register, finish}
use drive_now.Interleaving.Points.{
  Point, ready, candidate, locked, written_car, written_update, written_retired, written_rental,
  written_return, refused, committed, aborted,
}
use drive_now.Interleaving.Writes.{
  Job, changes, add_writes, update_writes, retire_writes, rent_writes, return_writes,
  status_changes, update_changes,
}

-- A change that inserts neither the car `i` nor the rental `j`.
abbrev Avoids : (i j : ℕ) → Change → Type 0
Avoids i j (insert_car c) = (c.id == i) ≡ false
Avoids i j (insert_rental r) = (r.id == j) ≡ false
Avoids i j (update_car c) = Unit {0}
Avoids i j (update_rental r) = Unit {0}

abbrev pub Unused : (i j : ℕ) → Tables → Type 0
Unused i j t = (find_car i t.cars ≡ none) × (find_rental j t.rentals ≡ none)

apply-Unused :
    (now i j : ℕ) (c : Change) (t : Tables)
    → Avoids i j c
    → Unused i j t
    → Unused i j (apply now c t)
apply-Unused now i j (insert_car c) t a (new_car, new_rental) = (ground arith, new_rental)
apply-Unused now i j (insert_rental r) t a (new_car, new_rental) = (new_car, ground arith)
apply-Unused now i j (update_car c) t a (new_car, new_rental) =
    (ground (arith, find_car-put_car i (updated_car now c) t.cars), new_rental)
apply-Unused now i j (update_rental r) t a (new_car, new_rental) =
    (new_car, ground (arith, find_rental-put_rental j (updated_rental now r) t.rentals))

apply_all-Unused :
    (now i j : ℕ) (cs : List Change) (t : Tables)
    → All (Avoids i j) cs
    → Unused i j t
    → Unused i j (apply_all now cs t)
apply_all-Unused now i j [] t a u = u
apply_all-Unused now i j (c ∷ cs) t (a, rest) u =
    apply_all-Unused now i j cs (apply now c t) rest (apply-Unused now i j c t a u)

-- The writes of a transaction insert under its own keys.
module _ (i j : ℕ) where
  status_changes-Avoids :
      (status : CarStatus) (car : Car) → All (Avoids i j) (status_changes status car)
  status_changes-Avoids status car = elim (Bool-cases (status_eq car.status status)) [
    | inl x ↦ simp (x, status_changes) tt
    | inr x ↦ simp (x, status_changes) (tt, tt)
  ]

  update_changes-Avoids :
      (car : Car) (assigned : List Assignment) → All (Avoids i j) (update_changes car assigned)
  update_changes-Avoids car [] = tt
  update_changes-Avoids car (a ∷ rest) = (tt, tt)

  add-Avoids : (call : Call) (key : ℕ) → (key == i) ≡ false → All (Avoids i j) (add_writes call key)
  add-Avoids (add dto) key h = (h, tt)
  add-Avoids (update car_id dto) key h = tt
  add-Avoids (delete instant car_id) key h = tt
  add-Avoids (register today dto) key h = tt
  add-Avoids (finish today rental_id) key h = tt

  update-Avoids : (call : Call) (car : Car) → All (Avoids i j) (update_writes call car)
  update-Avoids (update car_id dto) car = update_changes-Avoids car (actual car dto)
  update-Avoids (add dto) car = tt
  update-Avoids (delete instant car_id) car = tt
  update-Avoids (register today dto) car = tt
  update-Avoids (finish today rental_id) car = tt

  retire-Avoids : (call : Call) (car : Car) → All (Avoids i j) (retire_writes call car)
  retire-Avoids (delete instant car_id) car = (tt, tt)
  retire-Avoids (add dto) car = tt
  retire-Avoids (update car_id dto) car = tt
  retire-Avoids (register today dto) car = tt
  retire-Avoids (finish today rental_id) car = tt

  rent-Avoids :
      (call : Call) (key : ℕ) (car : Car)
      → (key == j) ≡ false
      → All (Avoids i j) (rent_writes call key car)
  rent-Avoids (register today dto) key car h = (h, status_changes-Avoids in_use car)
  rent-Avoids (add dto) key car h = tt
  rent-Avoids (update car_id dto) key car h = tt
  rent-Avoids (delete instant car_id) key car h = tt
  rent-Avoids (finish today rental_id) key car h = tt

  return-Avoids :
      (call : Call) (r : Rental) (car : Car) → All (Avoids i j) (return_writes call r car)
  return-Avoids (finish today rental_id) r car = (tt, status_changes-Avoids available car)
  return-Avoids (add dto) r car = tt
  return-Avoids (update car_id dto) r car = tt
  return-Avoids (delete instant car_id) r car = tt
  return-Avoids (register today dto) r car = tt

  changes-Avoids :
      (q : Job) (p : Point)
      → (q.car_key == i) ≡ false
      → (q.rental_key == j) ≡ false
      → All (Avoids i j) (changes q p)
  changes-Avoids q written_car hc hr = add-Avoids q.call q.car_key hc
  changes-Avoids q (written_update car) hc hr = update-Avoids q.call car
  changes-Avoids q (written_retired car) hc hr = retire-Avoids q.call car
  changes-Avoids q (written_rental car) hc hr = rent-Avoids q.call q.rental_key car hr
  changes-Avoids q (written_return r car) hc hr = return-Avoids q.call r car
  changes-Avoids q ready hc hr = tt
  changes-Avoids q (candidate r) hc hr = tt
  changes-Avoids q (locked car) hc hr = tt
  changes-Avoids q (refused e) hc hr = tt
  changes-Avoids q committed hc hr = tt
  changes-Avoids q aborted hc hr = tt

pub commit-Unused :
    (q : Job) (p : Point) (t : Tables) (i j : ℕ)
    → (q.car_key == i) ≡ false
    → (q.rental_key == j) ≡ false
    → Unused i j t
    → Unused i j (apply_all q.now (changes q p) t)
commit-Unused q p t i j hc hr u =
    apply_all-Unused q.now i j (changes q p) t (changes-Avoids i j q p hc hr) u
