-- ===== src/Interleaving/Keys.antt =====
-- The rentals and the consistency of the tables after a commit.
use drive_now.Base.{ℕ, ◌≡◌, refl, sym, subst, true, none, some, List, [], ◌∷◌, arith}
use drive_now.Models.{available, in_use, Car, Rental}
use drive_now.Models.Tables.{
  Tables, find_car, find_rental, put_rental, apply_all, created_rental, updated_rental,
}
use drive_now.Models.Tables.Laws.{find_rental_own_key}
use drive_now.Services.Cars.{Assignment, actual}
use drive_now.Services.Rentals.{new_rental}
use drive_now.Fleet
use drive_now.Fleet.{Verdict, accepts}
use drive_now.Fleet.Consistent.{IsConsistent}
use drive_now.Fleet.Invariant.{
  Keeps, add-Keeps, update-Keeps, delete-Keeps, register-Keeps, finish-Keeps,
}
use drive_now.History.{Call, add, update, delete, register, finish, IsValidCall}
use drive_now.Interleaving.Points.{
  Point, ready, candidate, locked, written_car, written_update, written_retired, written_rental,
  written_return, refused, committed, aborted, is_written,
}
use drive_now.Interleaving.Writes.{
  Job, changes, add_writes, update_writes, retire_writes, rent_writes, return_writes,
  update_changes, stores, promised, answer_of,
}
use drive_now.Interleaving.Facts.{Known, MayReturn}
use drive_now.Interleaving.Frame.{
  Lasting, Lasting-refl, insert_rental-Lasting, put_rental-Lasting, status_changes-rentals,
}
use drive_now.Interleaving.Atomic.{commit-stores}

Keeps-IsConsistent :
    {A : Type 0} (v : Verdict A) (t : Tables) → Keeps v → answer_of v ≡ stores t → IsConsistent t
Keeps-IsConsistent (accepts a t') t k e = subst IsConsistent (ground arith) k
Keeps-IsConsistent (Verdict.refuses x) t k e = absurd (cc)

module _ (now key rental_key : ℕ) (t t' : Tables) (k : IsConsistent t)
    (new_car : find_car key t.cars ≡ none)
    (new_rental : find_rental rental_key t.rentals ≡ none) where
  promised-IsConsistent :
      (call : Call)
      → IsValidCall call
      → promised now key rental_key call t ≡ stores t'
      → IsConsistent t'
  promised-IsConsistent (add dto) valid e =
      Keeps-IsConsistent (Fleet.add now key dto t) t' (add-Keeps now key dto t k new_car) e
  promised-IsConsistent (update car_id dto) valid e =
      Keeps-IsConsistent (Fleet.update now car_id dto t) t' (update-Keeps now car_id dto t k) e
  promised-IsConsistent (delete instant car_id) valid e =
      Keeps-IsConsistent (Fleet.delete now instant car_id t) t'
        (delete-Keeps now instant car_id t k) e
  promised-IsConsistent (register today dto) valid e =
      Keeps-IsConsistent (Fleet.register now rental_key today dto t) t'
        (register-Keeps now rental_key today dto t k new_rental valid) e
  promised-IsConsistent (finish today rental_id) valid e =
      Keeps-IsConsistent (Fleet.finish now today rental_id t) t'
        (finish-Keeps now today rental_id t k) e

-- A commit keeps the tables consistent.
pub commit-IsConsistent :
    (q : Job) (p : Point) (t : Tables)
    → IsConsistent t
    → IsValidCall q.call
    → is_written p ≡ true
    → Known q.call p t
    → find_car q.car_key t.cars ≡ none
    → find_rental q.rental_key t.rentals ≡ none
    → IsConsistent (apply_all q.now (changes q p) t)
commit-IsConsistent q p t k valid w h new_car new_rental =
    promised-IsConsistent q.now q.car_key q.rental_key t _ k new_car new_rental q.call valid
      (commit-stores q p t w h)

-- The rentals after a commit.
rent-Lasting :
    (now : ℕ) (call : Call) (key : ℕ) (car : Car) (t : Tables)
    → find_rental key t.rentals ≡ none
    → Lasting t.rentals (apply_all now (rent_writes call key car) t).rentals
rent-Lasting now (register today dto) key car t new =
    let x = created_rental now (record (new_rental car dto) { id = key }) in
    subst (Lasting t.rentals)
      (sym (status_changes-rentals now in_use car (record t { rentals = x ∷ t.rentals })))
      (insert_rental-Lasting x t.rentals new)
rent-Lasting now (add dto) key car t new = Lasting-refl t.rentals
rent-Lasting now (update car_id dto) key car t new = Lasting-refl t.rentals
rent-Lasting now (delete instant car_id) key car t new = Lasting-refl t.rentals
rent-Lasting now (finish today rental_id) key car t new = Lasting-refl t.rentals

return-Lasting :
    (now : ℕ) (call : Call) (r : Rental) (car : Car) (t : Tables)
    → IsConsistent t
    → MayReturn call r car t
    → Lasting t.rentals (apply_all now (return_writes call r car) t).rentals
return-Lasting now (finish today rental_id) r car t k (there, _, _, _) =
    let x = updated_rental now (record r { returned_date = some today }) in
    subst (Lasting t.rentals)
      (sym
        (status_changes-rentals now available car (record t { rentals = put_rental x t.rentals })))
      (put_rental-Lasting x r t k.rows.rental_keys (find_rental_own_key rental_id t.rentals r there)
        refl)
return-Lasting now (add dto) r car t k h = Lasting-refl t.rentals
return-Lasting now (update car_id dto) r car t k h = Lasting-refl t.rentals
return-Lasting now (delete instant car_id) r car t k h = Lasting-refl t.rentals
return-Lasting now (register today dto) r car t k h = Lasting-refl t.rentals

-- Writes that leave the rentals alone.
add_writes-rentals :
    (now key : ℕ) (call : Call) (t : Tables)
    → (apply_all now (add_writes call key) t).rentals ≡ t.rentals
add_writes-rentals now key (add dto) t = refl
add_writes-rentals now key (update car_id dto) t = refl
add_writes-rentals now key (delete instant car_id) t = refl
add_writes-rentals now key (register today dto) t = refl
add_writes-rentals now key (finish today rental_id) t = refl

update_changes-rentals :
    (now : ℕ) (car : Car) (assigned : List Assignment) (t : Tables)
    → (apply_all now (update_changes car assigned) t).rentals ≡ t.rentals
update_changes-rentals now car [] t = refl
update_changes-rentals now car (a ∷ rest) t = refl

update_writes-rentals :
    (now : ℕ) (call : Call) (car : Car) (t : Tables)
    → (apply_all now (update_writes call car) t).rentals ≡ t.rentals
update_writes-rentals now (update car_id dto) car t =
    update_changes-rentals now car (actual car dto) t
update_writes-rentals now (add dto) car t = refl
update_writes-rentals now (delete instant car_id) car t = refl
update_writes-rentals now (register today dto) car t = refl
update_writes-rentals now (finish today rental_id) car t = refl

retire_writes-rentals :
    (now : ℕ) (call : Call) (car : Car) (t : Tables)
    → (apply_all now (retire_writes call car) t).rentals ≡ t.rentals
retire_writes-rentals now (delete instant car_id) car t = refl
retire_writes-rentals now (add dto) car t = refl
retire_writes-rentals now (update car_id dto) car t = refl
retire_writes-rentals now (register today dto) car t = refl
retire_writes-rentals now (finish today rental_id) car t = refl

pub commit-Lasting :
    (q : Job) (p : Point) (t : Tables)
    → IsConsistent t
    → Known q.call p t
    → find_rental q.rental_key t.rentals ≡ none
    → Lasting t.rentals (apply_all q.now (changes q p) t).rentals
commit-Lasting q written_car t k h new =
    subst (Lasting t.rentals) (sym (add_writes-rentals q.now q.car_key q.call t))
      (Lasting-refl t.rentals)
commit-Lasting q (written_update car) t k h new =
    subst (Lasting t.rentals) (sym (update_writes-rentals q.now q.call car t))
      (Lasting-refl t.rentals)
commit-Lasting q (written_retired car) t k h new =
    subst (Lasting t.rentals) (sym (retire_writes-rentals q.now q.call car t))
      (Lasting-refl t.rentals)
commit-Lasting q (written_rental car) t k h new = rent-Lasting q.now q.call q.rental_key car t new
commit-Lasting q (written_return r car) t k h new = return-Lasting q.now q.call r car t k h.1
commit-Lasting q ready t k h new = Lasting-refl t.rentals
commit-Lasting q (candidate r) t k h new = Lasting-refl t.rentals
commit-Lasting q (locked car) t k h new = Lasting-refl t.rentals
commit-Lasting q (refused e) t k h new = Lasting-refl t.rentals
commit-Lasting q committed t k h new = Lasting-refl t.rentals
commit-Lasting q aborted t k h new = Lasting-refl t.rentals
