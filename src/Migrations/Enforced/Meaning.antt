-- ===== src/Migrations/Enforced/Meaning.antt =====
-- The constraints of the migration, against those under which the tables are modelled.
use drive_now.Base.{◌≤◌, ◌≡◌, ◌≢◌, ◌↔◌, true, none, List, [], ◌∷◌, arith, map, All}
use drive_now.Models.{Rental}
use drive_now.Models.Tables.{Tables, Satisfies, find_car, ReturnedAfterStart}
use drive_now.Migrations.{
  create_table, foreign_key, check, ge, either, is_null, upgrade, cars_table, rentals_table,
}
use drive_now.Migrations.Enforced.{car_row, rental_row, row_obeys, Enforces}
use drive_now.Migrations.Enforced.Columns.{
  CarKeys-unique, unique-CarKeys, RentalKeys-unique, unique-RentalKeys, CarFits, RentalFits,
  car_fits, rental_fits, refers-find_car, count-cars, count-rentals, count-open, is_there,
}

-- Keys, years and dates are in the range of their columns, and texts as short as theirs demand.
pub record Fits (t : Tables) : Type 0 where
  pub cars : All CarFits t.cars
  pub rentals : All RentalFits t.rentals

-- A property of every row, by the entries that it shows.
module _ {A B : Type 0} (f : A → B) where
  from_rows :
      (P : B → Type 0) (Q : A → Type 0) (xs : List A)
      → ((a : A) → P (f a) → Q a)
      → All P (map f xs)
      → All Q xs
  from_rows P Q [] h ps = tt
  from_rows P Q (x ∷ xs) h (p, ps) = (h x p, from_rows P Q xs h ps)

  to_rows :
      (P : B → Type 0) (Q : A → Type 0) (xs : List A)
      → ((a : A) → Q a → P (f a))
      → All Q xs
      → All P (map f xs)
  to_rows P Q [] h qs = tt
  to_rows P Q (x ∷ xs) h (q, qs) = (h x q, to_rows P Q xs h qs)

zipped :
    {A : Type 0} (P Q R : A → Type 0) (xs : List A)
    → All P xs
    → All Q xs
    → All R xs
    → All (λ a. P a × Q a × R a) xs
zipped P Q R [] ps qs rs = tt
zipped P Q R (x ∷ xs) (p, ps) (q, qs) (r, rs) = ((p, q, r), zipped P Q R xs ps qs rs)

-- The rows of `rentals`, one constraint at a time.
module _ (t : Tables) (r : Rental) where
  foreign :
      (row_obeys t (foreign_key "car_id" "cars" "id" "fk_rentals_car_id") (rental_row r) ≡ true)
      ↔ (find_car r.car_id t.cars ≢ none)
  unfolding rental_row
  foreign = rw (refers-find_car r.car_id t.cars) (is_there (find_car r.car_id t.cars))

  in_term :
      (row_obeys t (check (ge "end_date" "start_date") "ck_rentals_end_after_start") (rental_row r)
        ≡ true)
      ↔ (r.start_date ≤ r.end_date)
  unfolding rental_row
  in_term = (λ e. ground arith, λ h. ground arith)

  back_in_time :
      (row_obeys t
          (check
            (either (is_null "returned_date") (ge "returned_date" "start_date"))
            "ck_rentals_returned_after_start")
          (rental_row r)
        ≡ true)
      ↔ ReturnedAfterStart r.start_date r.returned_date
  unfolding rental_row
  back_in_time = (λ e. ground arith, λ h. ground arith)

-- The two tables.
enforced_cars : (t : Tables) → Satisfies t → Fits t → Enforces t (create_table cars_table)
enforced_cars t s f = (
  (
    (λ i. rw (count-cars i t.cars) (CarKeys-unique t.cars s.car_keys i)),
    (tt, (tt, (tt, (tt, (tt, (tt, tt)))))),
  ),
  to_rows car_row _ _ t.cars (λ c. (car_fits c).1) f.cars,
  tt,
)

enforced_rentals : (t : Tables) → Satisfies t → Fits t → Enforces t (create_table rentals_table)
enforced_rentals t s f = (
  (
    (λ i. rw (count-rentals i t.rentals) (RentalKeys-unique t.rentals s.rental_keys i)),
    (tt, (tt, (tt, (tt, (tt, (tt, (tt, tt))))))),
  ),
  to_rows rental_row _ _ t.rentals (λ r. (rental_fits r).1) f.rentals,
  (
    to_rows rental_row _ _ t.rentals (λ r h. (foreign t r).1 h.0) s.rental_rows,
    (
      to_rows rental_row _ _ t.rentals (λ r h. (in_term t r).1 h.1) s.rental_rows,
      (to_rows rental_row _ _ t.rentals (λ r h. (back_in_time t r).1 h.2) s.rental_rows, tt),
    ),
  ),
)

-- By SQL's rules, the contents of the tables obey the constraints, keys, column types and unique
-- indexes that `upgrade` creates if and only if they satisfy the constraints under which the
-- services are modelled and every key, year, date and text is within the range or the length of its
-- column.
pub Enforces-Satisfies : (t : Tables) → All (Enforces t) upgrade ↔ (Satisfies t × Fits t)
unfolding upgrade
Enforces-Satisfies t = (
  λ e.
      let ((cars, _), models, _) = e.0 in
      let ((rentals, _), names, terms) = e.1.1.0 in
      (
        record {
          car_keys = unique-CarKeys t.cars (λ i. rw⁻¹ (count-cars i t.cars) (cars i));
          rental_keys =
              unique-RentalKeys t.rentals (λ i. rw⁻¹ (count-rentals i t.rentals) (rentals i));
          rental_rows =
              zipped _ _ _ t.rentals
                (from_rows rental_row _ _ t.rentals (λ r. (foreign t r).0) terms.0)
                (from_rows rental_row _ _ t.rentals (λ r. (in_term t r).0) terms.1.0)
                (from_rows rental_row _ _ t.rentals (λ r. (back_in_time t r).0) terms.1.1.0);
          one_active = λ i. rw⁻¹ (count-open i t.rentals) (e.1.1.1.1.1.0 i);
        },
        record {
          cars = from_rows car_row _ _ t.cars (λ c. (car_fits c).0) models;
          rentals = from_rows rental_row _ _ t.rentals (λ r. (rental_fits r).0) names;
        },
      ),
  λ (s, f). (
    enforced_cars t s f,
    (
      tt,
      (
        enforced_rentals t s f,
        (tt, (tt, ((λ i. rw (count-open i t.rentals) (s.one_active i)), tt))),
      ),
    ),
  ),
)
