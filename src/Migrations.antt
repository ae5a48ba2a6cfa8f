-- ===== src/Migrations.antt =====
-- The migration alembic/versions/0001_create_cars_and_rentals.py: what `upgrade` and `downgrade` ask
-- of `op`. The database behind `op` is a parameter, whose states are schemas.
pub mod Metadata
pub mod Undo
pub mod Enforced
pub mod Env
pub mod Runs
use drive_now.Base.{ℕ, String, Bool, true, false, Option, none, some, List, [], ◌∷◌}

pub data ColumnType : Type 0 where
  integer date : ColumnType
  string : (length : ℕ) → ColumnType
  datetime : (timezone : Bool) → ColumnType
  -- a VARCHAR of this length with a CHECK for the values
  enum : (values : List String) (name : String) (length : ℕ) → ColumnType

-- A constant, or `func.now()`
pub data Default : Type 0 where
  literal : String → Default
  now : Default

pub record Column : Type 0 where
  pub name : String
  pub type : ColumnType
  pub primary_key : Bool
  pub nullable : Bool
  pub server_default : Option Default

-- A condition on the columns of a row: `a >= b`, `a IS NULL` and OR.
pub data Condition : Type 0 where
  ge : (a b : String) → Condition
  is_null : (a : String) → Condition
  either : Condition → Condition → Condition

pub data Constraint : Type 0 where
  foreign_key : (column table target name : String) → Constraint
  check : Condition → (name : String) → Constraint

pub record TableDef : Type 0 where
  pub name : String
  pub columns : List Column
  pub constraints : List Constraint

pub record Index : Type 0 where
  pub name : String
  pub table : String
  pub column : String
  pub unique : Bool
  pub only : Option Condition

-- A call of `alembic.op`.
pub data Operation : Type 0 where
  create_table : TableDef → Operation
  create_index : Index → Operation
  drop_table : (name : String) → Operation
  drop_index : (name table : String) → Operation

-- A database by its schema, on which an operation may raise.
pub record Op : Type 1 where
  pub Schema : Type 0
  pub execute : Operation → Schema → Option Schema

-- The operations of a migration, up to one that raises.
abbrev pub run : (O : Op) → List Operation → O.Schema → Option O.Schema
run O [] s = some s
run O (o ∷ os) s = elim (O.execute o s) [ none ↦ none | some s' ↦ run O os s' ]

-- A column without a server default.
abbrev pub plain : String → ColumnType → (nullable : Bool) → Column
plain name type nullable = record {
  name = name;
  type = type;
  primary_key = false;
  nullable = nullable;
  server_default = none;
}

abbrev pub defaulted : String → ColumnType → Default → Column
defaulted name type default = record (plain name type false) { server_default = some default }

abbrev pub key : String → Column
key name = record (plain name integer false) { primary_key = true }

abbrev pub index : (name table column : String) → Index
index name table column = record {
  name = name;
  table = table;
  column = column;
  unique = false;
  only = none;
}

abbrev pub cars_table : TableDef
cars_table = record {
  name = "cars";
  columns =
      key "id"
      ∷ plain "model" (string 100) false
      ∷ plain "year" integer false
      ∷ defaulted "status"
          (enum ("available" ∷ "in_use" ∷ "under_maintenance" ∷ []) "car_status" 20)
          (literal "available")
      ∷ plain "deleted_at" (datetime true) true
      ∷ defaulted "created_at" (datetime true) now
      ∷ defaulted "updated_at" (datetime true) now
      ∷ [];
  constraints = [];
}

abbrev pub rentals_table : TableDef
rentals_table = record {
  name = "rentals";
  columns =
      key "id"
      ∷ plain "car_id" integer false
      ∷ plain "customer_name" (string 200) false
      ∷ plain "start_date" date false
      ∷ plain "end_date" date false
      ∷ plain "returned_date" date true
      ∷ defaulted "created_at" (datetime true) now
      ∷ defaulted "updated_at" (datetime true) now
      ∷ [];
  constraints =
      foreign_key "car_id" "cars" "id" "fk_rentals_car_id"
      ∷ check (ge "end_date" "start_date") "ck_rentals_end_after_start"
      ∷ check (either (is_null "returned_date") (ge "returned_date" "start_date"))
          "ck_rentals_returned_after_start"
      ∷ [];
}

abbrev pub one_active_index : Index
one_active_index = record (index "uq_rentals_one_active_per_car" "rentals" "car_id") {
  unique = true;
  only = some (is_null "returned_date");
}

unfoldable pub upgrade : List Operation
upgrade =
    create_table cars_table
    ∷ create_index (index "ix_cars_deleted_at" "cars" "deleted_at")
    ∷ create_table rentals_table
    ∷ create_index (index "ix_rentals_car_id" "rentals" "car_id")
    ∷ create_index (index "ix_rentals_returned_date" "rentals" "returned_date")
    ∷ create_index one_active_index
    ∷ []

unfoldable pub downgrade : List Operation
downgrade =
    drop_index "uq_rentals_one_active_per_car" "rentals"
    ∷ drop_index "ix_rentals_returned_date" "rentals"
    ∷ drop_index "ix_rentals_car_id" "rentals"
    ∷ drop_table "rentals"
    ∷ drop_index "ix_cars_deleted_at" "cars"
    ∷ drop_table "cars"
    ∷ []
