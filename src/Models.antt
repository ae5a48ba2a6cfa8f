-- ===== src/Models.antt =====
-- The ORM models of app/models: the enum `CarStatus` and the rows of the tables `cars` and
-- `rentals`. A date is its proleptic ordinal and an instant a count of seconds; both are only
-- compared.
pub mod Tables
use drive_now.Base.{ℕ, String, Bool, true, false, Option, none, some}

pub data CarStatus : Type 0 where
  available in_use under_maintenance : CarStatus

-- The member's value, as it is stored and sent.
unfoldable pub value : CarStatus → String
value available = "available"
value in_use = "in_use"
value under_maintenance = "under_maintenance"

-- `==` and `is` on members of the enum.
abbrev pub status_eq : CarStatus → CarStatus → Bool
status_eq available available = true
status_eq available _ = false
status_eq in_use in_use = true
status_eq in_use _ = false
status_eq under_maintenance under_maintenance = true
status_eq under_maintenance _ = false

pub record Car : Type 0 where
  pub id : ℕ
  pub model : String
  pub year : ℕ
  pub status : CarStatus
  pub deleted_at : Option ℕ
  pub created_at : ℕ
  pub updated_at : ℕ

abbrev pub is_none {ℓ} : {A : Type ℓ} → Option A → Bool
is_none none = true
is_none (some _) = false

abbrev pub is_deleted : Car → Bool
is_deleted c = elim c.deleted_at [ none ↦ false | some _ ↦ true ]

pub record Rental : Type 0 where
  pub id : ℕ
  pub car_id : ℕ
  pub customer_name : String
  pub start_date : ℕ
  pub end_date : ℕ
  pub returned_date : Option ℕ
  pub created_at : ℕ
  pub updated_at : ℕ

abbrev pub is_active : Rental → Bool
is_active r = is_none r.returned_date

-- The largest number that an INTEGER column holds.
abbrev pub last_integer : ℕ
last_integer = 2147483647
