-- ===== src/Schemas/Bodies.antt =====
-- The request DTOs as they are declared in app/schemas: from what a client sends to the typed bodies
-- of `Validation`. What pydantic makes of a value for a declared type is a parameter; so is JSON. A
-- negative integer is read as zero, which fails the same checks.
use drive_now.Base.{ℕ, String, Bool, Option, none, some, List, [], ◌∷◌, if◌then◌else◌, lookup, only}
use drive_now.Models.{CarStatus}
use drive_now.Schemas.Validation.{Sent, unset, null, value, CarBody, CarPatch, RentalBody}

-- The values that a client sends, in a body or as a text in the path or the query, and their
-- conversions: nothing is what pydantic refuses.
pub record Pydantic : Type 1 where
  pub Input : Type 0
  pub text : String → Input
  pub is_null : Input → Bool
  pub to_int : Input → Option ℕ
  pub to_str : Input → Option String
  pub to_date : Input → Option ℕ
  pub to_status : Input → Option CarStatus

-- The members of an object.
abbrev pub Object : Pydantic → Type 0
Object V = List (String × V.Input)

infixl 5 ◌>>=◌
abbrev ◌>>=◌ : {A B : Type 0} → Option A → (A → Option B) → Option B
none >>= k = none
some a >>= k = k a

abbrev pub as_value : {A : Type 0} → Option A → Option (Sent A)
as_value none = none
as_value (some a) = some (value a)

-- The names of the fields.
abbrev pub car_fields : List String
car_fields = "model" ∷ "year" ∷ []

abbrev pub patch_fields : List String
patch_fields = "model" ∷ "year" ∷ "status" ∷ []

abbrev pub rental_fields : List String
rental_fields = "car_id" ∷ "customer_name" ∷ "start_date" ∷ "end_date" ∷ []

module _ (V : Pydantic) where
  -- A field without a default.
  abbrev pub required : {A : Type 0} → (V.Input → Option A) → String → Object V → Option A
  required to name o = elim (lookup name o) [ none ↦ none | some i ↦ to i ]

  -- A field `A | None = None`.
  abbrev pub optional : {A : Type 0} → (V.Input → Option A) → String → Object V → Option (Sent A)
  optional to name o = elim (lookup name o) [
    | none ↦ some unset
    | some i ↦ if V.is_null i then some null else as_value (to i)
  ]

  -- `StrictModel`: an undeclared member is refused.
  abbrev pub strict : {A : Type 0} → List String → Object V → Option A → Option A
  strict names o parsed = if only names o then parsed else none

  unfoldable pub parse_car : Object V → Option CarBody
  parse_car o = strict car_fields o (do
    model ← required V.to_str "model" o
    year ← required V.to_int "year" o
    some (record { model = model; year = year }))

  unfoldable pub parse_patch : Object V → Option CarPatch
  parse_patch o = strict patch_fields o (do
    model ← optional V.to_str "model" o
    year ← optional V.to_int "year" o
    status ← optional V.to_status "status" o
    some (record { model = model; year = year; status = status }))

  unfoldable pub parse_rental : Object V → Option RentalBody
  parse_rental o = strict rental_fields o (do
    car_id ← required V.to_int "car_id" o
    customer_name ← required V.to_str "customer_name" o
    start_date ← required V.to_date "start_date" o
    end_date ← required V.to_date "end_date" o
    some (record {
      car_id = car_id;
      customer_name = customer_name;
      start_date = start_date;
      end_date = end_date;
    }))
