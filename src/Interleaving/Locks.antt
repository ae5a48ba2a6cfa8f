-- ===== src/Interleaving/Locks.antt =====
-- The row locks of a transaction: what a statement takes, and which it may wait for.
use drive_now.Base.{
  ℕ, ◌≡◌, ◌⊎◌, sym, ap, subst, ◌∙◌, inl, inr, none, some, arith, ◌==◌, Bool-cases, Option-cases,
}
use drive_now.Models.{Car, Rental}
use drive_now.Models.Tables.{Tables, find_rental}
use drive_now.Models.Tables.Laws.{find_rental_id}
use drive_now.Repositories.Cars.{find_live}
use drive_now.Fleet.Consistent.{IsConsistent}
use drive_now.Fleet.Invariant.{found_car}
use drive_now.History.{Call, add, update, delete, register, finish}
use drive_now.Interleaving.Points.{
  Point, ready, candidate, locked, written_car, written_update, written_retired, written_rental,
  written_return, refused, committed, aborted, holds_car, holds_rental, wants_car, wants_rental,
  first_lock, second_lock,
}
use drive_now.Interleaving.Statements.{react, at_ready, at_locked, read_car}
use drive_now.Interleaving.Facts.{Known, IsAbout, MayReturn}

read_car-holds : (i c : ℕ) (t : Tables) → IsConsistent t → holds_car (read_car i t) ≡ some c → i ≡ c
read_car-holds i c t k e = elim (Option-cases (find_live i t.cars)) [
  | inl x ↦ absurd (ground arith)
  | inr (car, x) ↦ let (_, same, _) = found_car i car t k x in ground arith
]

ready-holds :
    (call : Call) (c : ℕ) (t : Tables)
    → IsConsistent t
    → holds_car (at_ready call t) ≡ some c
    → first_lock call ≡ some c
ready-holds (add dto) c t k e = absurd (cc)
ready-holds (update car_id dto) c t k e = ap some (read_car-holds car_id c t k e)
ready-holds (delete instant car_id) c t k e = ap some (read_car-holds car_id c t k e)
ready-holds (register today dto) c t k e = elim (Bool-cases (dto.start_date == today)) [
  | inl x ↦ simp (x, first_lock) (ap some (read_car-holds dto.car_id c t k (ground arith)))
  | inr x ↦ absurd (ground arith)
]
ready-holds (finish today rental_id) c t k e = absurd (ground arith)

locked-holds :
    (call : Call) (car : Car) (c : ℕ) (t : Tables)
    → holds_car (at_locked call car t) ≡ some c
    → car.id ≡ c
locked-holds (add dto) car c t e = absurd (cc)
locked-holds (update car_id dto) car c t e = ground arith
locked-holds (delete instant car_id) car c t e = ground arith
locked-holds (register today dto) car c t e = ground arith
locked-holds (finish today rental_id) car c t e = ground arith

-- A statement takes no car's lock but the one that it asks for.
pub react-holds :
    (call : Call) (p : Point) (c : ℕ) (t : Tables)
    → IsConsistent t
    → holds_car (react call t p) ≡ some c
    → (wants_car call p ≡ some c) ⊎ (holds_car p ≡ some c)
react-holds call ready c t k e = inl (ready-holds call c t k e)
react-holds call (candidate r) c t k e = inl (ap some (read_car-holds r.car_id c t k e))
react-holds call (locked car) c t k e = inr (ap some (locked-holds call car c t e))
react-holds call written_car c t k e = inr e
react-holds call (written_update car) c t k e = inr e
react-holds call (written_retired car) c t k e = inr e
react-holds call (written_rental car) c t k e = inr e
react-holds call (written_return r car) c t k e = inr e
react-holds call (refused x) c t k e = inr e
react-holds call committed c t k e = inr e
react-holds call aborted c t k e = inr e

-- A transaction that holds a car asks for no other.
pub holds-wants_car :
    (call : Call) (p : Point) (c : ℕ) → holds_car p ≡ some c → wants_car call p ≡ none
holds-wants_car call p c e = ground arith

-- A transaction that asks for a rental's lock has none.
pub wants-holds_rental :
    (call : Call) (p : Point) (i : ℕ) → wants_rental call p ≡ some i → holds_rental p ≡ none
wants-holds_rental call p i e = ground arith

-- A rental's lock is asked for, and held, by transactions that hold its car.
abbrev HoldsItsCar : Tables → Point → ℕ → Type 0
HoldsItsCar t p i =
    (r : Rental) × (find_rental i t.rentals ≡ some r) × (holds_car p ≡ some r.car_id)

wanted_rental :
    (t : Tables) (call : Call) (car : Car) (i : ℕ)
    → IsAbout call car t
    → second_lock call ≡ some i
    → HoldsItsCar t (locked car) i
wanted_rental t (finish today rental_id) car i (r, there, same) e =
    (r, subst (λ j. find_rental j t.rentals ≡ some r) (ground arith) there, ap some (sym same))
wanted_rental t (add dto) car i h e = absurd (cc)
wanted_rental t (update car_id dto) car i h e = absurd (cc)
wanted_rental t (delete instant car_id) car i h e = absurd (cc)
wanted_rental t (register today dto) car i h e = absurd (cc)

held_rental :
    (t : Tables) (call : Call) (r : Rental) (car : Car) (i : ℕ)
    → MayReturn call r car t
    → r.id ≡ i
    → HoldsItsCar t (written_return r car) i
held_rental t (finish today rental_id) r car i (there, same, _, _) e = (
  r,
  subst (λ j. find_rental j t.rentals ≡ some r)
      (sym (find_rental_id rental_id t.rentals r there) ∙ e) there,
  ap some (sym same),
)
held_rental t (add dto) r car i h e = absurd h
held_rental t (update car_id dto) r car i h e = absurd h
held_rental t (delete instant car_id) r car i h e = absurd h
held_rental t (register today dto) r car i h e = absurd h

pub wants_rental-holds :
    (t : Tables) (call : Call) (p : Point) (i : ℕ)
    → Known call p t
    → wants_rental call p ≡ some i
    → HoldsItsCar t p i
wants_rental-holds t call (locked car) i (live, h) e = wanted_rental t call car i h e
wants_rental-holds t call ready i h e = absurd (cc)
wants_rental-holds t call (candidate r) i h e = absurd (cc)
wants_rental-holds t call written_car i h e = absurd (cc)
wants_rental-holds t call (written_update car) i h e = absurd (cc)
wants_rental-holds t call (written_retired car) i h e = absurd (cc)
wants_rental-holds t call (written_rental car) i h e = absurd (cc)
wants_rental-holds t call (written_return r car) i h e = absurd (cc)
wants_rental-holds t call (refused x) i h e = absurd (cc)
wants_rental-holds t call committed i h e = absurd (cc)
wants_rental-holds t call aborted i h e = absurd (cc)

pub holds_rental-holds :
    (t : Tables) (call : Call) (p : Point) (i : ℕ)
    → Known call p t
    → holds_rental p ≡ some i
    → HoldsItsCar t p i
holds_rental-holds t call (written_return r car) i (live, h) e =
    held_rental t call r car i h (ground arith)
holds_rental-holds t call (locked car) i h e = absurd (cc)
holds_rental-holds t call ready i h e = absurd (cc)
holds_rental-holds t call (candidate r) i h e = absurd (cc)
holds_rental-holds t call written_car i h e = absurd (cc)
holds_rental-holds t call (written_update car) i h e = absurd (cc)
holds_rental-holds t call (written_retired car) i h e = absurd (cc)
holds_rental-holds t call (written_rental car) i h e = absurd (cc)
holds_rental-holds t call (refused x) i h e = absurd (cc)
holds_rental-holds t call committed i h e = absurd (cc)
holds_rental-holds t call aborted i h e = absurd (cc)
