-- ===== src/Interleaving/Atomic.antt =====
-- What a transaction commits, against the promise of its method.
use drive_now.Base.{
  ℕ, ◌≡◌, refl, sym, subst, inl, inr, true, false, none, some, List, [], ◌∷◌, arith, ◌==◌, ltb,
  Bool-cases,
}
use drive_now.Models.{available, in_use, status_eq, Car, Rental}
use drive_now.Models.Tables.{Tables, find_rental, put_rental, apply_all}
use drive_now.Schemas.{CarUpdate, RentalCreate}
use drive_now.Services.Cars.{Assignment, actual, new_status, illegal}
use drive_now.Repositories.Cars.{find_live}
use drive_now.Repositories.Rentals.{active_of}
use drive_now.Fleet
use drive_now.History.{Call, add, update, delete, register, finish}
use drive_now.Interleaving.Points.{
  Point, ready, candidate, locked, written_car, written_update, written_retired, written_rental,
  written_return, refused, committed, aborted, is_written,
}
use drive_now.Interleaving.Writes.{
  Job, changes, promise, promised, answer_of, stores, update_changes, status_changes, update_writes,
  rent_writes, return_writes,
}
use drive_now.Interleaving.Facts.{Known, IsLive, IsAdd, MayUpdate, MayRetire, MayRent, MayReturn}

saved :
    (now : ℕ) (car : Car) (assigned : List Assignment) (t : Tables)
    → illegal car.status (new_status assigned) ≡ none
    → answer_of (Fleet.save_actual now car assigned t)
      ≡ stores (apply_all now (update_changes car assigned) t)
saved now car [] t legal = refl
saved now car (a ∷ rest) t legal = simp (legal, Fleet.save) refl

back :
    (now today : ℕ) (r : Rental) (car : Car) (t : Tables)
    → stores (record {
      cars = Fleet.put_status now available car t.cars;
      rentals = put_rental (Fleet.returned now today r) t.rentals;
    })
      ≡ stores (
          apply_all now
            (status_changes available car)
            (record t { rentals = put_rental (Fleet.returned now today r) t.rentals }))
back now today r car t = elim (Bool-cases (status_eq car.status available)) [
  | inl x ↦ simp x refl
  | inr x ↦ simp x refl
]

update-stores :
    (now k l car_id : ℕ) (dto : CarUpdate) (car : Car) (t : Tables)
    → find_live car.id t.cars ≡ some car
    → car_id ≡ car.id
    → illegal car.status (new_status (actual car dto)) ≡ none
    → promised now k l (update car_id dto) t
      ≡ stores (apply_all now (update_writes (update car_id dto) car) t)
unfolding Fleet.update
update-stores now k l car_id dto car t live same legal =
    simp (same, live, Fleet.update) (saved now car (actual car dto) t legal)

retire-stores :
    (now k l instant car_id : ℕ) (car : Car) (t : Tables)
    → find_live car.id t.cars ≡ some car
    → car_id ≡ car.id
    → active_of car.id t ≡ none
    → promised now k l (delete instant car_id) t
      ≡ stores (
          apply_all now
            (changes
              (record { call = delete instant car_id; now = now; car_key = k; rental_key = l })
              (written_retired car))
            t)
unfolding Fleet.delete
retire-stores now k l instant car_id car t live same free = simp (same, live, free) refl

rent-stores :
    (now k l today : ℕ) (dto : RentalCreate) (car : Car) (t : Tables)
    → find_live car.id t.cars ≡ some car
    → dto.start_date ≡ today
    → dto.car_id ≡ car.id
    → status_eq car.status available ≡ true
    → active_of car.id t ≡ none
    → promised now k l (register today dto) t
      ≡ stores (apply_all now (rent_writes (register today dto) l car) t)
unfolding Fleet.register Fleet.rent
rent-stores now k l today dto car t live starts same av free =
    let today_eq : (dto.start_date == today) ≡ true = ground arith in
    let idle : status_eq car.status in_use ≡ false = ground arith in
    simp (today_eq, same, live, av, free, idle, Fleet.register, Fleet.rent) refl

return-stores :
    (now k l today rental_id : ℕ) (r : Rental) (car : Car) (t : Tables)
    → find_live car.id t.cars ≡ some car
    → find_rental rental_id t.rentals ≡ some r
    → r.car_id ≡ car.id
    → r.returned_date ≡ none
    → ltb today r.start_date ≡ false
    → promised now k l (finish today rental_id) t
      ≡ stores (apply_all now (return_writes (finish today rental_id) r car) t)
unfolding Fleet.finish
return-stores now k l today rental_id r car t live there same out due =
    let held = subst (λ i. find_live i t.cars ≡ some car) (sym same) live in
    simp (there, held, out, due, Fleet.finish, Fleet.take_back) (back now today r car t)

-- The four writes, whatever the call.
module _ (now k l : ℕ) where
  abbrev job : Call → Job
  job call = record { call = call; now = now; car_key = k; rental_key = l }

  abbrev Stores : Call → Point → Tables → Type 0
  Stores call p t = promised now k l call t ≡ stores (apply_all now (changes (job call) p) t)

  added-Stores : (call : Call) (t : Tables) → IsAdd call → Stores call written_car t
  unfolding Fleet.add
  added-Stores (add dto) t h = refl
  added-Stores (update car_id dto) t h = absurd h
  added-Stores (delete instant car_id) t h = absurd h
  added-Stores (register today dto) t h = absurd h
  added-Stores (finish today rental_id) t h = absurd h

  updated-Stores :
      (call : Call) (car : Car) (t : Tables)
      → IsLive car t
      → MayUpdate call car
      → Stores call (written_update car) t
  updated-Stores (update car_id dto) car t live (same, legal) =
      update-stores now k l car_id dto car t live same legal
  updated-Stores (add dto) car t live h = absurd h
  updated-Stores (delete instant car_id) car t live h = absurd h
  updated-Stores (register today dto) car t live h = absurd h
  updated-Stores (finish today rental_id) car t live h = absurd h

  retired-Stores :
      (call : Call) (car : Car) (t : Tables)
      → IsLive car t
      → MayRetire call car t
      → Stores call (written_retired car) t
  retired-Stores (delete instant car_id) car t live (same, free) =
      retire-stores now k l instant car_id car t live same free
  retired-Stores (add dto) car t live h = absurd h
  retired-Stores (update car_id dto) car t live h = absurd h
  retired-Stores (register today dto) car t live h = absurd h
  retired-Stores (finish today rental_id) car t live h = absurd h

  rented-Stores :
      (call : Call) (car : Car) (t : Tables)
      → IsLive car t
      → MayRent call car t
      → Stores call (written_rental car) t
  rented-Stores (register today dto) car t live (starts, same, av, free) =
      rent-stores now k l today dto car t live starts same av free
  rented-Stores (add dto) car t live h = absurd h
  rented-Stores (update car_id dto) car t live h = absurd h
  rented-Stores (delete instant car_id) car t live h = absurd h
  rented-Stores (finish today rental_id) car t live h = absurd h

  returned-Stores :
      (call : Call) (r : Rental) (car : Car) (t : Tables)
      → IsLive car t
      → MayReturn call r car t
      → Stores call (written_return r car) t
  returned-Stores (finish today rental_id) r car t live (there, same, out, due) =
      return-stores now k l today rental_id r car t live there same out due
  returned-Stores (add dto) r car t live h = absurd h
  returned-Stores (update car_id dto) r car t live h = absurd h
  returned-Stores (delete instant car_id) r car t live h = absurd h
  returned-Stores (register today dto) r car t live h = absurd h

-- Commit.
pub commit-stores :
    (q : Job) (p : Point) (t : Tables)
    → is_written p ≡ true
    → Known q.call p t
    → promise q t ≡ stores (apply_all q.now (changes q p) t)
commit-stores q written_car t w h = added-Stores q.now q.car_key q.rental_key q.call t h
commit-stores q (written_update car) t w (live, h) =
    updated-Stores q.now q.car_key q.rental_key q.call car t live h
commit-stores q (written_retired car) t w (live, h) =
    retired-Stores q.now q.car_key q.rental_key q.call car t live h
commit-stores q (written_rental car) t w (live, h) =
    rented-Stores q.now q.car_key q.rental_key q.call car t live h
commit-stores q (written_return r car) t w (live, h) =
    returned-Stores q.now q.car_key q.rental_key q.call r car t live h
commit-stores q ready t w h = absurd (cc)
commit-stores q (candidate r) t w h = absurd (cc)
commit-stores q (locked car) t w h = absurd (cc)
commit-stores q (refused e) t w h = absurd (cc)
commit-stores q committed t w h = absurd (cc)
commit-stores q aborted t w h = absurd (cc)
