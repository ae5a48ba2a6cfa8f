-- ===== src/Schemas/Validation.antt =====
-- The validators of the request DTOs, on a body whose fields have the declared types: pydantic refuses
-- any other before, and a field that is not declared (extra="forbid"). A negative number fails each
-- check as zero does, so the numbers of a body are natural numbers here.
use Prim.Native.String.{count}
use drive_now.Base.{
  ℕ, ◌+◌, ◌≤◌, ◌≡◌, String, Bool, true, false, not, ◌&&◌, Option, none, some, arith, ltb, leb,
  if◌then◌else◌,
}
use drive_now.Models.{CarStatus}
use drive_now.Schemas.{CarCreate, CarUpdate, RentalCreate}

-- `_check_year`, with the current year.
abbrev pub check_year : (this_year value : ℕ) → Bool
check_year this_year value = leb 1900 value && leb value (this_year + 1)

-- `Field(min_length=1, max_length=limit)`
abbrev pub check_length : (limit : ℕ) → String → Bool
check_length limit s = leb 1 (count s) && leb (count s) limit

-- A field of a partial update: left out, sent as null, or sent with a value.
pub data Sent (A : Type 0) : Type 0 where
  unset null : Sent A
  value : A → Sent A

pub record CarBody : Type 0 where
  pub model : String
  pub year : ℕ

pub record CarPatch : Type 0 where
  pub model : Sent String
  pub year : Sent ℕ
  pub status : Sent CarStatus

pub record RentalBody : Type 0 where
  pub car_id : ℕ
  pub customer_name : String
  pub start_date : ℕ
  pub end_date : ℕ

unfoldable pub validate_car : (this_year : ℕ) → CarBody → Option CarCreate
validate_car this_year b =
    if check_length 100 b.model && check_year this_year b.year
    then some (record { model = b.model; year = b.year })
    else none

-- A value must pass its check, and null is refused (`_reject_explicit_null`).
abbrev pub admits : {A : Type 0} → (A → Bool) → Sent A → Bool
admits p unset = true
admits p null = false
admits p (value a) = p a

-- The field of `model_dump(exclude_unset=True)`.
abbrev pub sent : {A : Type 0} → Sent A → Option A
sent unset = none
sent null = none
sent (value a) = some a

unfoldable pub validate_patch : (this_year : ℕ) → CarPatch → Option CarUpdate
validate_patch this_year b =
    if admits (check_length 100) b.model
      && (admits (check_year this_year) b.year && admits (λ s. true) b.status)
    then some (record { model = sent b.model; year = sent b.year; status = sent b.status })
    else none

unfoldable pub validate_rental : RentalBody → Option RentalCreate
validate_rental b =
    if ltb 0 b.car_id && (check_length 200 b.customer_name && not (ltb b.end_date b.start_date))
    then some (record {
      car_id = b.car_id;
      customer_name = b.customer_name;
      start_date = b.start_date;
      end_date = b.end_date;
    })
    else none

-- A body that the validation of `RentalCreate` accepts has a positive car id, a customer name of 1
-- to 200 characters, and a term that does not end before it starts.
pub validate_rental-valid :
    (b : RentalBody) (dto : RentalCreate)
    → validate_rental b ≡ some dto
    → (1 ≤ dto.car_id)
      × (1 ≤ count dto.customer_name)
      × (count dto.customer_name ≤ 200)
      × (dto.start_date ≤ dto.end_date)
unfolding validate_rental
validate_rental-valid b dto e = ground arith

abbrev pub FieldIn : (low high : ℕ) → {A : Type 0} → (A → ℕ) → Option A → Type 0
FieldIn low high f none = Unit {0}
FieldIn low high f (some a) = (low ≤ f a) × (f a ≤ high)

-- A body that the validation of `CarUpdate` accepts yields a model of 1 to 100 characters, if any,
-- and a year between 1900 and the next one, if any.
pub validate_patch-valid :
    (this_year : ℕ) (b : CarPatch) (dto : CarUpdate)
    → validate_patch this_year b ≡ some dto
    → FieldIn 1 100 count dto.model × FieldIn 1900 (this_year + 1) (λ y. y) dto.year
unfolding validate_patch
validate_patch-valid this_year b dto e = ground arith
