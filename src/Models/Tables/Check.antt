-- ===== src/Models/Tables/Check.antt =====
-- The constraints of the schema as a test that runs.
use drive_now.Base.{
  ℕ, ◌≤◌, ◌≡◌, ◌↔◌, ◌⊎◌, refl, inl, Bool, true, not, ◌&&◌, Option, none, some, List, [], ◌∷◌, arith,
  leb, All,
}
use drive_now.Models.{Car, Rental, is_none}
use drive_now.Models.Tables.{
  Tables, Satisfies, find_car, find_rental, open_count, CarKeys, RentalKeys, RentalRow,
}

abbrev car_keys_hold : List Car → Bool
car_keys_hold [] = true
car_keys_hold (c ∷ cs) = is_none (find_car c.id cs) && car_keys_hold cs

abbrev rental_keys_hold : List Rental → Bool
rental_keys_hold [] = true
rental_keys_hold (r ∷ rs) = is_none (find_rental r.id rs) && rental_keys_hold rs

abbrev returned_after_start : ℕ → Option ℕ → Bool
returned_after_start start none = true
returned_after_start start (some d) = leb start d

abbrev row_holds : List Car → Rental → Bool
row_holds cars r =
    not (is_none (find_car r.car_id cars))
    && (leb r.start_date r.end_date && returned_after_start r.start_date r.returned_date)

abbrev rows_hold : List Car → List Rental → Bool
rows_hold cars [] = true
rows_hold cars (r ∷ rs) = row_holds cars r && rows_hold cars rs

-- Every car that a row of `some_rentals` names has at most one open rental among `rentals`.
abbrev one_active_holds : (rentals some_rentals : List Rental) → Bool
one_active_holds rentals [] = true
one_active_holds rentals (r ∷ rs) =
    leb (open_count r.car_id rentals) 1 && one_active_holds rentals rs

-- The primary keys, the foreign key, the two CHECKs and the partial unique index.
unfoldable pub satisfies : Tables → Bool
satisfies t =
    car_keys_hold t.cars
    && (rental_keys_hold t.rentals
        && (rows_hold t.cars t.rentals && one_active_holds t.rentals t.rentals))

CarKeys-iff : (cs : List Car) → (car_keys_hold cs ≡ true) ↔ CarKeys cs
CarKeys-iff [] = ((λ _. tt), λ _. refl)
CarKeys-iff (c ∷ cs) = ground (arith, CarKeys-iff cs)

RentalKeys-iff : (rs : List Rental) → (rental_keys_hold rs ≡ true) ↔ RentalKeys rs
RentalKeys-iff [] = ((λ _. tt), λ _. refl)
RentalKeys-iff (r ∷ rs) = ground (arith, RentalKeys-iff rs)

row_iff : (cars : List Car) (r : Rental) → (row_holds cars r ≡ true) ↔ RentalRow cars r
row_iff cars r = ground arith

rows_iff :
    (cars : List Car) (rs : List Rental) → (rows_hold cars rs ≡ true) ↔ All (RentalRow cars) rs
rows_iff cars [] = ((λ _. tt), λ _. refl)
rows_iff cars (r ∷ rs) = ground (arith, row_iff cars r, rows_iff cars rs)

one_active_covers :
    (rentals rs : List Rental) (i : ℕ)
    → one_active_holds rentals rs ≡ true
    → (open_count i rs ≡ 0) ⊎ (open_count i rentals ≤ 1)
one_active_covers rentals [] i h = inl refl
one_active_covers rentals (r ∷ rs) i h = ground (arith, one_active_covers rentals rs i)

one_active_holds_all :
    (rentals rs : List Rental)
    → ((i : ℕ) → open_count i rentals ≤ 1)
    → one_active_holds rentals rs ≡ true
one_active_holds_all rentals [] h = refl
one_active_holds_all rentals (r ∷ rs) h =
    ground (arith, h r.car_id, one_active_holds_all rentals rs h)

pub satisfies_sound : (t : Tables) → satisfies t ≡ true → Satisfies t
unfolding satisfies
satisfies_sound t h = record {
  car_keys = (CarKeys-iff t.cars).0 (ground arith);
  rental_keys = (RentalKeys-iff t.rentals).0 (ground arith);
  rental_rows = (rows_iff t.cars t.rentals).0 (ground arith);
  one_active = λ i. grind (arith, one_active_covers t.rentals t.rentals i);
}

pub satisfies_complete : (t : Tables) → Satisfies t → satisfies t ≡ true
unfolding satisfies
satisfies_complete t s = rw (
  (CarKeys-iff t.cars).1 s.car_keys,
  (RentalKeys-iff t.rentals).1 s.rental_keys,
  (rows_iff t.cars t.rentals).1 s.rental_rows,
  one_active_holds_all t.rentals t.rentals s.one_active,
)
