-- ===== src/Interleaving/Frame.antt =====
-- What one write leaves as it is for the transactions that hold other cars.
use drive_now.Repositories.Lookup.{find_live-put_car}
use drive_now.Base.{
  ℕ, ◌≡◌, refl, ◌∙◌, inl, inr, false, none, some, List, [], ◌∷◌, arith, ◌==◌, Bool-cases,
}
use drive_now.Models.{CarStatus, status_eq, Car, Rental}
use drive_now.Models.Tables.{
  Tables, find_car, find_rental, put_car, put_rental, open_count, RentalKeys, apply_all,
  updated_car, update_car,
}
use drive_now.Models.Tables.Laws.{find_rental-put_rental, open_count-put_rental}
use drive_now.Repositories.Cars.{find_live}
use drive_now.Repositories.Lookup.{find_live-eq-none}
use drive_now.Interleaving.Writes.{status_changes}

-- The car `c` and its rentals are as before.
pub record Frames (c : ℕ) (t t' : Tables) : Type 0 where
  pub live : (car : Car) → find_live c t.cars ≡ some car → find_live c t'.cars ≡ some car
  pub opened : open_count c t'.rentals ≡ open_count c t.rentals
  pub rows :
      (i : ℕ) (r : Rental)
      → find_rental i t.rentals ≡ some r
      → r.car_id ≡ c
      → find_rental i t'.rentals ≡ some r

-- A rental stays, and stays one of its car.
abbrev pub Lasting : List Rental → List Rental → Type 0
Lasting rs rs' =
    (i : ℕ) (r : Rental)
    → find_rental i rs ≡ some r
    → (r' : Rental) × (find_rental i rs' ≡ some r') × (r'.car_id ≡ r.car_id)

pub Frames-refl : (c : ℕ) (t : Tables) → Frames c t t
Frames-refl c t = record { live = λ car e. e; opened = refl; rows = λ i r e same. e }

pub Frames-trans : {c : ℕ} {t u v : Tables} → Frames c t u → Frames c u v → Frames c t v
Frames-trans f g = record {
  live = λ car e. g.live car (f.live car e);
  opened = g.opened ∙ f.opened;
  rows = λ i r e same. g.rows i r (f.rows i r e same) same;
}

pub Lasting-refl : (rs : List Rental) → Lasting rs rs
Lasting-refl rs i r e = (r, e, refl)

put_car-Frames :
    (c : ℕ) (x : Car) (t : Tables)
    → (x.id == c) ≡ false
    → Frames c t (record t { cars = put_car x t.cars })
put_car-Frames c x t other = record {
  live = λ car e. find_live-put_car c x t.cars ∙ rw other e;
  opened = refl;
  rows = λ i r e same. e;
}

pub insert_car-Frames :
    (c : ℕ) (x : Car) (t : Tables)
    → find_car x.id t.cars ≡ none
    → Frames c t (record t { cars = x ∷ t.cars })
insert_car-Frames c x t new =
    let unseen = find_live-eq-none x.id t.cars new in
    record { live = λ car e. ground arith; opened = refl; rows = λ i r e same. e }

pub insert_rental-Frames :
    (c : ℕ) (x : Rental) (t : Tables)
    → find_rental x.id t.rentals ≡ none
    → (x.car_id == c) ≡ false
    → Frames c t (record t { rentals = x ∷ t.rentals })
insert_rental-Frames c x t new other = record {
  live = λ car e. e;
  opened = ground arith;
  rows = λ i r e same. ground arith;
}

pub insert_rental-Lasting :
    (x : Rental) (rs : List Rental) → find_rental x.id rs ≡ none → Lasting rs (x ∷ rs)
insert_rental-Lasting x rs new i r e = (r, ground arith, refl)

module _ (x old : Rental) (t : Tables) (keys : RentalKeys t.rentals)
    (there : find_rental x.id t.rentals ≡ some old) (same_car : x.car_id ≡ old.car_id) where
  pub put_rental-Frames :
      (c : ℕ) → (x.car_id == c) ≡ false → Frames c t (record t { rentals = put_rental x t.rentals })
  put_rental-Frames c other = record {
    live = λ car e. e;
    opened = ground (arith, open_count-put_rental c x old t.rentals keys there);
    rows = λ i r e same. ground (arith, find_rental-put_rental i x t.rentals);
  }

  pub put_rental-Lasting : Lasting t.rentals (put_rental x t.rentals)
  put_rental-Lasting i r e = elim (Bool-cases (x.id == i)) [
    | inl h ↦ (x, ground (arith, find_rental-put_rental i x t.rentals), ground arith)
    | inr h ↦ (r, ground (arith, find_rental-put_rental i x t.rentals), refl)
  ]

-- The writes to a car that is not `c`.
module _ (now c : ℕ) (car : Car) (t : Tables) (other : (car.id == c) ≡ false) where
  pub status_changes-Frames :
      (status : CarStatus) → Frames c t (apply_all now (status_changes status car) t)
  status_changes-Frames status = elim (Bool-cases (status_eq car.status status)) [
    | inl x ↦ simp (x, status_changes) (Frames-refl c t)
    | inr x ↦
        simp (x, status_changes)
          (put_car-Frames c (updated_car now (record car { status = status })) t other)
  ]

  pub put-Frames : (x : Car) → x.id ≡ car.id → Frames c t (apply_all now (update_car x ∷ []) t)
  put-Frames x same = put_car-Frames c (updated_car now x) t (rw same other)

-- The rentals do not change with a car.
pub status_changes-rentals :
    (now : ℕ) (status : CarStatus) (car : Car) (t : Tables)
    → (apply_all now (status_changes status car) t).rentals ≡ t.rentals
status_changes-rentals now status car t = elim (Bool-cases (status_eq car.status status)) [
  | inl x ↦ simp (x, status_changes) refl
  | inr x ↦ simp (x, status_changes) refl
]
