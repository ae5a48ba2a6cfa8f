-- ===== src/Fleet/Retention.antt =====
-- What may become of a row from one state of the tables to a later one.
pub mod Promises
use drive_now.Base.{
  ℕ, ◌≤◌, ◌≡◌, ◌≢◌, refl, sym, ap, ◌∙◌, subst, inl, inr, Bool, true, false, Option, none, some,
  List, [], ◌∷◌, arith, ◌==◌, if◌then◌else◌, Bool-cases, Option-cases,
}
use drive_now.Models.{CarStatus, available, in_use, status_eq, Car, is_deleted, Rental}
use drive_now.Models.Tables.{Tables, find_car, find_rental, put_car, put_rental, updated_car}
use drive_now.Models.Tables.Laws.{
  replaced, find_car-put_car, find_rental-put_rental, find_rental_own_key,
}
use drive_now.Schemas.{CarCreate, CarUpdate, RentalCreate}
use drive_now.Services.Cars.{
  Assignment, set_model, set_year, set_status, Update, illegal, new_status, set_all, actual,
}
use drive_now.Repositories.Cars.{find_live}
use drive_now.Fleet
use drive_now.Fleet.{Verdict, accepts, refuses}
use drive_now.Fleet.Consistent.{IsConsistent}
use drive_now.Fleet.Invariant.{found_car}
use drive_now.Fleet.Accepted.{register-Registered, finish-Finished, delete-Retired}

-- A later state of a rental: only its return may have been entered, and never changes after that.
abbrev pub RentalGoesOn : Rental → Rental → Type 0
RentalGoesOn r r' =
    (record r' { returned_date = r.returned_date; updated_at = r.updated_at } ≡ r)
    × (r.returned_date ≢ none → r' ≡ r)

-- A later state of a car: a retired car never changes.
abbrev pub CarGoesOn : Car → Car → Type 0
CarGoesOn c c' = (c'.id ≡ c.id) × (c'.created_at ≡ c.created_at) × (is_deleted c ≡ true → c' ≡ c)

abbrev pub RentalsGoOn : List Rental → List Rental → Type 0
RentalsGoOn rs rs' =
    (i : ℕ) (r : Rental)
    → find_rental i rs ≡ some r
    → (r' : Rental) × (find_rental i rs' ≡ some r') × RentalGoesOn r r'

abbrev pub CarsGoOn : List Car → List Car → Type 0
CarsGoOn cs cs' =
    (i : ℕ) (c : Car)
    → find_car i cs ≡ some c
    → (c' : Car) × (find_car i cs' ≡ some c') × CarGoesOn c c'

pub record Retains (t t' : Tables) : Type 0 where
  pub rentals : RentalsGoOn t.rentals t'.rentals
  pub cars : CarsGoOn t.cars t'.cars

pub rentals_same : (rs : List Rental) → RentalsGoOn rs rs
rentals_same rs i r e = (r, e, (refl, λ h. refl))

pub cars_same : (cs : List Car) → CarsGoOn cs cs
cars_same cs i c e = (c, e, (refl, refl, λ h. refl))

pub Retains-refl : (t : Tables) → Retains t t
Retains-refl t = record { rentals = rentals_same t.rentals; cars = cars_same t.cars }

pub Retains-trans : {t u v : Tables} → Retains t u → Retains u v → Retains t v
Retains-trans a b = record {
  rentals = λ i r e.
      let (r', e', (same', done')) = a.rentals i r e in
      let (r'', e'', (same'', done'')) = b.rentals i r' e' in
      (
        r'',
        e'',
        (
          ap
                (λ (x : Rental). record x {
                  returned_date = r.returned_date;
                  updated_at = r.updated_at;
                })
                same''
              ∙ same',
          λ h. done'' (subst (λ (x : Rental). x.returned_date ≢ none) (sym (done' h)) h) ∙ done' h,
        ),
      );
  cars = λ i c e.
      let (c', e', (key', made', gone')) = a.cars i c e in
      let (c'', e'', (key'', made'', gone'')) = b.cars i c' e' in
      (
        c'',
        e'',
        (key'' ∙ key', made'' ∙ made', λ h. gone'' (ap is_deleted (gone' h) ∙ h) ∙ gone' h),
      );
}

pub rentals_insert :
    (new : Rental) (rs : List Rental) → find_rental new.id rs ≡ none → RentalsGoOn rs (new ∷ rs)
rentals_insert new rs fresh i r e = (r, ground arith, (refl, λ h. refl))

pub cars_insert : (new : Car) (cs : List Car) → find_car new.id cs ≡ none → CarsGoOn cs (new ∷ cs)
cars_insert new cs fresh i c e = (c, ground arith, (refl, refl, λ h. refl))

pub rentals_put :
    (r' old : Rental) (rs : List Rental)
    → find_rental r'.id rs ≡ some old
    → RentalGoesOn old r'
    → RentalsGoOn rs (put_rental r' rs)
rentals_put r' old rs found on i r e = elim (Bool-cases (r'.id == i)) [
  | inl hit ↦ (
    r',
    ground (arith, find_rental-put_rental i r' rs),
    subst (λ x. RentalGoesOn x r') (ground arith) on,
  )
  | inr miss ↦ (r, ground (arith, find_rental-put_rental i r' rs), (refl, λ h. refl))
]

pub cars_put :
    (c' old : Car) (cs : List Car)
    → find_car c'.id cs ≡ some old
    → CarGoesOn old c'
    → CarsGoOn cs (put_car c' cs)
cars_put c' old cs found on i c e = elim (Bool-cases (c'.id == i)) [
  | inl hit ↦
      (c', ground (arith, find_car-put_car i c' cs), subst (λ x. CarGoesOn x c') (ground arith) on)
  | inr miss ↦ (c, ground (arith, find_car-put_car i c' cs), (refl, refl, λ h. refl))
]
