-- ===== src/Migrations/Enforced/Columns.antt =====
-- The rows of the two tables against their entries: keys, columns and the foreign key.
use drive_now.Base.{
  ℕ, ◌≤◌, ◌≡◌, ◌≢◌, ◌↔◌, refl, String, Bool, true, not, ◌&&◌, Option, none, some, List, [], ◌∷◌,
  arith, ◌==◌, map, count, find?,
}
use Prim.Native.String.{count as characters}
use drive_now.Models.{
  CarStatus, available, in_use, under_maintenance, Car, Rental, value, is_none, last_integer,
}
use drive_now.Models.Tables.{find_car, open_count, CarKeys, RentalKeys}
use drive_now.Migrations.{enum, date, datetime, is_null, plain, cars_table, rentals_table}
use drive_now.Migrations.Enforced.{
  Row, number, nullable, car_row, rental_row, row_fits, refers, has_number, is_true, truth, takes,
  takes_text, last_date,
}

-- A date, if any, up to this one.
abbrev pub Within : ℕ → Option ℕ → Type 0
Within last none = Unit {0}
Within last (some n) = n ≤ last

-- What the types of the columns of a row admit.
abbrev pub CarFits : Car → Type 0
CarFits c = (c.id ≤ last_integer) × (characters c.model ≤ 100) × (c.year ≤ last_integer)

abbrev pub RentalFits : Rental → Type 0
RentalFits r =
    (r.id ≤ last_integer)
    × (r.car_id ≤ last_integer)
    × (characters r.customer_name ≤ 200)
    × (r.start_date ≤ last_date)
    × (r.end_date ≤ last_date)
    × Within last_date r.returned_date

-- A key that a table holds at most once, and one that it does not hold.
module _ {A : Type 0} (key : A → ℕ) where
  abbrev holds : ℕ → A → Bool
  holds i a = key a == i

  absent : (i : ℕ) (xs : List A) → find? (holds i) xs ≡ none → count (holds i) xs ≡ 0
  absent i [] e = refl
  absent i (x ∷ xs) e = ground (arith, absent i xs)

  uncounted : (i : ℕ) (xs : List A) → count (holds i) xs ≤ 0 → find? (holds i) xs ≡ none
  uncounted i [] e = refl
  uncounted i (x ∷ xs) e = ground (arith, uncounted i xs)

pub CarKeys-unique : (cs : List Car) → CarKeys cs → (i : ℕ) → count (λ (c : Car). c.id == i) cs ≤ 1
CarKeys-unique [] k i = omega arith
CarKeys-unique (c ∷ cs) k i =
    ground (arith, CarKeys-unique cs k.1 i, absent (λ (c : Car). c.id) c.id cs k.0)

pub unique-CarKeys :
    (cs : List Car) → ((i : ℕ) → count (λ (c : Car). c.id == i) cs ≤ 1) → CarKeys cs
unique-CarKeys [] u = tt
unique-CarKeys (c ∷ cs) u =
    let once = u c.id in
    (
      uncounted (λ (c : Car). c.id) c.id cs (ground arith),
      unique-CarKeys cs (λ i. let most = u i in ground arith),
    )

pub RentalKeys-unique :
    (rs : List Rental) → RentalKeys rs → (i : ℕ) → count (λ (r : Rental). r.id == i) rs ≤ 1
RentalKeys-unique [] k i = omega arith
RentalKeys-unique (r ∷ rs) k i =
    ground (arith, RentalKeys-unique rs k.1 i, absent (λ (r : Rental). r.id) r.id rs k.0)

pub unique-RentalKeys :
    (rs : List Rental) → ((i : ℕ) → count (λ (r : Rental). r.id == i) rs ≤ 1) → RentalKeys rs
unique-RentalKeys [] u = tt
unique-RentalKeys (r ∷ rs) u =
    let once = u r.id in
    (
      uncounted (λ (r : Rental). r.id) r.id rs (ground arith),
      unique-RentalKeys rs (λ i. let most = u i in ground arith),
    )

status_fits :
    (s : CarStatus)
    → takes_text
        (enum ("available" ∷ "in_use" ∷ "under_maintenance" ∷ []) "car_status" 20)
        (value s)
      ≡ true
unfolding value
status_fits available = refl
status_fits in_use = refl
status_fits under_maintenance = refl

nullable_fits :
    (name : String) (o : Option ℕ)
    → (takes (plain name date true) (nullable o) ≡ true) ↔ Within last_date o
nullable_fits name none = (λ e. tt, λ h. refl)
nullable_fits name (some n) = (λ e. ground arith, λ h. ground arith)

deleted_fits : (o : Option ℕ) → takes (plain "deleted_at" (datetime true) true) (nullable o) ≡ true
deleted_fits none = refl
deleted_fits (some n) = refl

pub car_fits : (c : Car) → (row_fits cars_table.columns (car_row c) ≡ true) ↔ CarFits c
unfolding car_row
car_fits c = (
  λ e. ground (arith, status_fits c.status, deleted_fits c.deleted_at),
  λ h. ground (arith, status_fits c.status, deleted_fits c.deleted_at),
)

pub rental_fits :
    (r : Rental) → (row_fits rentals_table.columns (rental_row r) ≡ true) ↔ RentalFits r
unfolding rental_row
rental_fits r = (
  λ e. let h = (nullable_fits "returned_date" r.returned_date).0 in ground arith,
  λ h. let g = (nullable_fits "returned_date" r.returned_date).1 h.5 in ground arith,
)

-- The foreign key.
pub refers-find_car :
    (i : ℕ) (cs : List Car)
    → refers "id" (number i) (map car_row cs) ≡ not (is_none (find_car i cs))
unfolding car_row
refers-find_car i [] = refl
refers-find_car i (c ∷ cs) = ground (arith, refers-find_car i cs)

pub count-cars :
    (i : ℕ) (cs : List Car)
    → count (λ (row : Row). has_number i (row "id") && true) (map car_row cs)
      ≡ count (λ (c : Car). c.id == i) cs
unfolding car_row
count-cars i [] = refl
count-cars i (c ∷ cs) = ground (arith, count-cars i cs)

pub count-rentals :
    (i : ℕ) (rs : List Rental)
    → count (λ (row : Row). has_number i (row "id") && true) (map rental_row rs)
      ≡ count (λ (r : Rental). r.id == i) rs
unfolding rental_row
count-rentals i [] = refl
count-rentals i (r ∷ rs) = ground (arith, count-rentals i rs)

pub count-open :
    (i : ℕ) (rs : List Rental)
    → count
        (λ (row : Row).
          has_number i (row "car_id") && is_true (truth (is_null "returned_date") row))
        (map rental_row rs)
      ≡ open_count i rs
unfolding rental_row
count-open i [] = refl
count-open i (r ∷ rs) = ground (arith, count-open i rs)

pub is_there : (o : Option Car) → (not (is_none o) ≡ true) ↔ (o ≢ none)
is_there none = (λ e. absurd (cc), λ h. absurd (h refl))
is_there (some c) = (λ e h. cc, λ h. refl)
