-- ===== src/Migrations/Metadata.antt =====
-- The metadata of app/models, and the migration against it.
use drive_now.Base.{
  ◌≡◌, refl, String, Bool, true, false, Option, none, some, List, [], ◌∷◌, ◌++◌, map, if◌then◌else◌,
}
use Prim.Native.String.{◌++◌ as append}
use drive_now.Models.{available, in_use, under_maintenance, value}
use drive_now.Migrations.{
  integer, string, date, datetime, enum, literal, now, Column, ge, is_null, either, Constraint,
  foreign_key, check, TableDef, Index, Operation, create_table, create_index, plain, defaulted, key,
  index, upgrade,
}

-- `mapped_column`, with the foreign key in it, and whether it has an index.
pub record Mapped : Type 0 where
  pub column : Column
  pub references : Option Constraint
  pub index : Bool

-- A class of the models: its columns, and its `__table_args__`.
pub record Model : Type 0 where
  pub tablename : String
  pub columns : List Mapped
  pub checks : List Constraint
  pub indexes : List Index

abbrev pub mapped : Column → Mapped
mapped c = record { column = c; references = none; index = false }

-- `TimestampMixin`
abbrev pub timestamps : List Mapped
timestamps =
    mapped (defaulted "created_at" (datetime true) now)
    ∷ mapped (defaulted "updated_at" (datetime true) now)
    ∷ []

-- `Car`, whose `status` takes the values of `CarStatus`.
unfoldable pub car_model : Model
unfolding value
car_model = record {
  tablename = "cars";
  columns =
      mapped (key "id")
      ∷ mapped (plain "model" (string 100) false)
      ∷ mapped (plain "year" integer false)
      ∷ mapped (
          defaulted "status"
            (enum (map value (available ∷ in_use ∷ under_maintenance ∷ [])) "car_status" 20)
            (literal (value available)))
      ∷ record (mapped (plain "deleted_at" (datetime true) true)) { index = true }
      ∷ timestamps;
  checks = [];
  indexes = [];
}

-- `Rental`
unfoldable pub rental_model : Model
rental_model = record {
  tablename = "rentals";
  columns =
      mapped (key "id")
      ∷ record {
        column = plain "car_id" integer false;
        references = some (foreign_key "car_id" "cars" "id" "fk_rentals_car_id");
        index = true;
      }
      ∷ mapped (plain "customer_name" (string 200) false)
      ∷ mapped (plain "start_date" date false)
      ∷ mapped (plain "end_date" date false)
      ∷ record (mapped (plain "returned_date" date true)) { index = true }
      ∷ timestamps;
  checks =
      check (ge "end_date" "start_date") "ck_rentals_end_after_start"
      ∷ check (either (is_null "returned_date") (ge "returned_date" "start_date"))
          "ck_rentals_returned_after_start"
      ∷ [];
  indexes =
      record (index "uq_rentals_one_active_per_car" "rentals" "car_id") {
        unique = true;
        only = some (is_null "returned_date");
      }
      ∷ [];
}

abbrev pub references : List Mapped → List Constraint
references [] = []
references (m ∷ ms) = elim m.references [ none ↦ references ms | some c ↦ c ∷ references ms ]

-- The table of a class.
abbrev pub table_of : Model → TableDef
table_of m = record {
  name = m.tablename;
  columns = map (λ c. c.column) m.columns;
  constraints = references m.columns ++ m.checks;
}

-- SQLAlchemy names the index of a column by the table and the column.
abbrev pub column_indexes : String → List Mapped → List Index
column_indexes table [] = []
column_indexes table (m ∷ ms) =
    let rest = column_indexes table ms in
    let name = append "ix_" (append table (append "_" m.column.name)) in
    if m.index then index name table m.column.name ∷ rest else rest

abbrev pub indexes_of : Model → List Index
indexes_of m = column_indexes m.tablename m.columns ++ m.indexes

abbrev create_indexes : List Index → List Operation
create_indexes [] = []
create_indexes (i ∷ is) = create_index i ∷ create_indexes is

-- The tables and indexes that the classes declare, a table before those that refer to it.
abbrev pub declared : List Model → List Operation
declared [] = []
declared (m ∷ ms) = create_table (table_of m) ∷ create_indexes (indexes_of m) ++ declared ms

-- The operations of the migration are those that create what the models declare.
upgrade-declared : upgrade ≡ declared (car_model ∷ rental_model ∷ [])
unfolding upgrade car_model rental_model
upgrade-declared = refl
