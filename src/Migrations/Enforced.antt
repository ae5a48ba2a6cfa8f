-- ===== src/Migrations/Enforced.antt =====
-- What a database enforces on the contents of the tables that the migration creates, by SQL's rules:
-- a comparison with NULL is unknown, a CHECK is violated by what is false, an index covers the rows
-- for which its condition is true, and a VARCHAR is measured in characters.
pub mod Columns
pub mod Meaning
use drive_now.Base.{
  ℕ, ◌≤◌, ◌≡◌, String, Bool, true, false, not, ◌&&◌, Option, none, some, List, [], ◌∷◌, ◌==◌, leb,
  if◌then◌else◌, map, count, All,
}
use Prim.Native.String.{count as characters}
use text.Mathlib.Text.{◌==◌ as str_eq}
use drive_now.Models.{Car, Rental, value, last_integer}
use drive_now.Models.Tables.{Tables}
use drive_now.Migrations.{
  ColumnType, integer, date, string, datetime, enum, Column, Condition, ge, is_null, either,
  Constraint, foreign_key, check, TableDef, Index, Operation, create_table, create_index,
  drop_table, drop_index,
}

-- A date or an instant is a number.
pub data Cell : Type 0 where
  null : Cell
  number : ℕ → Cell
  chars : String → Cell

abbrev pub Row : Type 0
Row = String → Cell

abbrev pub nullable : Option ℕ → Cell
nullable none = null
nullable (some n) = number n

abbrev pub lookup : String → List (String × Cell) → Cell
lookup name [] = null
lookup name ((n, cell) ∷ rest) = if str_eq n name then cell else lookup name rest

unfoldable pub car_row : Car → Row
car_row c name = lookup name (
    ("id", number c.id)
    ∷ ("model", chars c.model)
    ∷ ("year", number c.year)
    ∷ ("status", chars (value c.status))
    ∷ ("deleted_at", nullable c.deleted_at)
    ∷ ("created_at", number c.created_at)
    ∷ ("updated_at", number c.updated_at)
    ∷ [])

unfoldable pub rental_row : Rental → Row
rental_row r name = lookup name (
    ("id", number r.id)
    ∷ ("car_id", number r.car_id)
    ∷ ("customer_name", chars r.customer_name)
    ∷ ("start_date", number r.start_date)
    ∷ ("end_date", number r.end_date)
    ∷ ("returned_date", nullable r.returned_date)
    ∷ ("created_at", number r.created_at)
    ∷ ("updated_at", number r.updated_at)
    ∷ [])

-- The rows of a table by its name.
abbrev pub rows : Tables → String → List Row
rows t name =
    if str_eq name "cars"
    then map car_row t.cars
    else if str_eq name "rentals"
    then map rental_row t.rentals
    else []

-- The truth of a condition, which may be unknown.
abbrev pub at_least : Cell → Cell → Option Bool
at_least (number a) (number b) = some (leb b a)
at_least (number a) null = none
at_least (number a) (chars s) = none
at_least null b = none
at_least (chars s) b = none

abbrev pub null_test : Cell → Bool
null_test null = true
null_test (number n) = false
null_test (chars s) = false

abbrev pub or_else : Option Bool → Option Bool → Option Bool
or_else (some true) b = some true
or_else (some false) b = b
or_else none (some true) = some true
or_else none (some false) = none
or_else none none = none

abbrev pub truth : Condition → Row → Option Bool
truth (ge a b) row = at_least (row a) (row b)
truth (is_null a) row = some (null_test (row a))
truth (either c d) row = or_else (truth c row) (truth d row)

abbrev pub passes : Option Bool → Bool
passes (some b) = b
passes none = true

abbrev pub is_true : Option Bool → Bool
is_true (some b) = b
is_true none = false

abbrev pub has_number : ℕ → Cell → Bool
has_number i (number n) = n == i
has_number i null = false
has_number i (chars s) = false

-- A value occurs at most once in a column, among the rows that an index covers.
abbrev pub IsUnique : String → (Row → Bool) → List Row → Type 0
IsUnique column covers rs = (i : ℕ) → count (λ row. has_number i (row column) && covers row) rs ≤ 1

abbrev pub is_listed : String → List String → Bool
is_listed s [] = false
is_listed s (v ∷ vs) = if str_eq s v then true else is_listed s vs

-- Whether a column takes a text, or a number.
abbrev pub takes_text : ColumnType → String → Bool
takes_text (string length) s = leb (characters s) length
takes_text (enum values name length) s = is_listed s values && leb (characters s) length
takes_text integer s = false
takes_text date s = false
takes_text (datetime timezone) s = false

-- The last DATE, 31 December 5874897, counted from 1 January of year 1.
abbrev pub last_date : ℕ
last_date = 2145762068

-- An instant is a number without a unit here, and within its range.
abbrev pub takes_number : ColumnType → ℕ → Bool
takes_number integer n = leb n last_integer
takes_number date n = leb n last_date
takes_number (datetime timezone) n = true
takes_number (string length) n = false
takes_number (enum values name length) n = false

abbrev pub takes : Column → Cell → Bool
takes c null = c.nullable
takes c (number n) = takes_number c.type n
takes c (chars s) = takes_text c.type s

abbrev pub row_fits : List Column → Row → Bool
row_fits [] row = true
row_fits (c ∷ cs) row = takes c (row c.name) && row_fits cs row

abbrev pub refers : String → Cell → List Row → Bool
refers target null rs = true
refers target (chars s) rs = false
refers target (number n) [] = false
refers target (number n) (row ∷ rs) =
    if has_number n (row target) then true else refers target (number n) rs

abbrev pub row_obeys : Tables → Constraint → Row → Bool
row_obeys t (foreign_key column table target name) row = refers target (row column) (rows t table)
row_obeys t (check condition name) row = passes (truth condition row)

abbrev pub Keys : List Column → List Row → Type 0
Keys [] rs = Unit {0}
Keys (c ∷ cs) rs =
    (if c.primary_key then IsUnique c.name (λ row. true) rs else Unit {0}) × Keys cs rs

abbrev pub Enforces : Tables → Operation → Type 0
Enforces t (create_table d) =
    Keys d.columns (rows t d.name)
    × All (λ row. row_fits d.columns row ≡ true) (rows t d.name)
    × All (λ c. All (λ row. row_obeys t c row ≡ true) (rows t d.name)) d.constraints
Enforces t (create_index i) =
    if i.unique
    then IsUnique i.column (λ row. elim i.only [ none ↦ true | some c ↦ is_true (truth c row) ])
        (rows t i.table)
    else Unit {0}
Enforces t (drop_table name) = Unit {0}
Enforces t (drop_index name table) = Unit {0}
