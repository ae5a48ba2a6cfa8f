-- ===== src/Models/Tables/Writes.antt =====
-- Which writes the constraints of the schema admit.
use drive_now.Base.{
  ℕ, ◌≡◌, ◌≢◌, false, none, some, List, [], ◌∷◌, arith, ◌==◌, All, inl, inr, subst, Bool-cases,
}
use drive_now.Models.{Car, Rental, is_active}
use drive_now.Models.Tables.{
  Tables, Satisfies, find_car, find_rental, put_car, put_rental, open_count, RentalRow,
}
use drive_now.Models.Tables.Laws.{
  find_car-put_car, CarKeys-put_car, RentalKeys-put_rental, open_count-put_rental,
}

-- The foreign keys hold as long as no car goes away.
rental_rows_mono :
    (cs cs' : List Car) (rs : List Rental)
    → ((i : ℕ) → find_car i cs ≢ none → find_car i cs' ≢ none)
    → All (RentalRow cs) rs
    → All (RentalRow cs') rs
rental_rows_mono cs cs' [] h a = tt
rental_rows_mono cs cs' (r ∷ rs) h (row, a) =
    ((h r.car_id row.0, row.1, row.2), rental_rows_mono cs cs' rs h a)

pub insert_car-Satisfies :
    (c : Car) (t : Tables)
    → Satisfies t
    → find_car c.id t.cars ≡ none
    → Satisfies (record t { cars = c ∷ t.cars })
insert_car-Satisfies c t s new = record {
  car_keys = (new, s.car_keys);
  rental_keys = s.rental_keys;
  rental_rows = rental_rows_mono t.cars (c ∷ t.cars) t.rentals (λ i h. ground arith) s.rental_rows;
  one_active = s.one_active;
}

pub put_car-Satisfies :
    (c : Car) (t : Tables) → Satisfies t → Satisfies (record t { cars = put_car c t.cars })
put_car-Satisfies c t s = record {
  car_keys = CarKeys-put_car c t.cars s.car_keys;
  rental_keys = s.rental_keys;
  rental_rows =
      rental_rows_mono t.cars (put_car c t.cars) t.rentals
        (λ i h. ground (arith, find_car-put_car i c t.cars)) s.rental_rows;
  one_active = s.one_active;
}

-- A rental of a car that has no open rental.
pub insert_rental-Satisfies :
    (r : Rental) (t : Tables)
    → Satisfies t
    → find_rental r.id t.rentals ≡ none
    → RentalRow t.cars r
    → open_count r.car_id t.rentals ≡ 0
    → Satisfies (record t { rentals = r ∷ t.rentals })
insert_rental-Satisfies r t s new row free = record {
  car_keys = s.car_keys;
  rental_keys = (new, s.rental_keys);
  rental_rows = (row, s.rental_rows);
  one_active = λ i. grind (arith, s.one_active i);
}

rental_rows-put_rental :
    (cs : List Car) (r : Rental) (rs : List Rental)
    → RentalRow cs r
    → All (RentalRow cs) rs
    → All (RentalRow cs) (put_rental r rs)
rental_rows-put_rental cs r [] row a = tt
rental_rows-put_rental cs r (x ∷ xs) row (row', a) = elim (Bool-cases (x.id == r.id)) [
  | inl hit ↦ rw hit (row, rental_rows-put_rental cs r xs row a)
  | inr miss ↦ rw miss (row', rental_rows-put_rental cs r xs row a)
]

-- A rental that is closed.
pub put_rental-Satisfies :
    (r old : Rental) (t : Tables)
    → Satisfies t
    → find_rental r.id t.rentals ≡ some old
    → RentalRow t.cars r
    → is_active r ≡ false
    → Satisfies (record t { rentals = put_rental r t.rentals })
put_rental-Satisfies r old t s found row closed = record {
  car_keys = s.car_keys;
  rental_keys = RentalKeys-put_rental r t.rentals s.rental_keys;
  rental_rows = rental_rows-put_rental t.cars r t.rentals row s.rental_rows;
  one_active = λ i.
      ground (arith, s.one_active i, open_count-put_rental i r old t.rentals s.rental_keys found);
}

-- The constraints of the row with a key.
pub rental_row :
    (i : ℕ) (cs : List Car) (rs : List Rental) (r : Rental)
    → All (RentalRow cs) rs
    → find_rental i rs ≡ some r
    → RentalRow cs r
rental_row i cs [] r a e = cc
rental_row i cs (x ∷ xs) r (row, a) e = elim (Bool-cases (x.id == i)) [
  | inl hit ↦ subst (RentalRow cs) (some_eq (rw hit at e)) row
  | inr miss ↦ rental_row i cs xs r a (rw miss at e)
]
  where
    some_eq : some x ≡ some r → x ≡ r
    some_eq p = cc
