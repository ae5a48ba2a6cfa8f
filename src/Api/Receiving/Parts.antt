-- ===== src/Api/Receiving/Parts.antt =====
-- What the conversion does to the parts of a request: undeclared members, and what a client writes.
use drive_now.Base.{
  ℕ, ◌≡◌, refl, String, true, false, Option, none, some, List, [], ◌∷◌, arith, lookup, is_among,
  only, only-lookup, Option-cases, inl, inr,
}
use drive_now.Models.{CarStatus, value as status_text}
use drive_now.Database.{Database}
use drive_now.Messaging.{Publisher}
use drive_now.Action.{World}
use drive_now.Schemas.Validation.{Sent, unset, null, value}
use drive_now.Schemas.Bodies.{
  Pydantic, Object, car_fields, patch_fields, rental_fields, parse_car, parse_patch, parse_rental,
}
use drive_now.Api.{Request, Clock, response, validation_error}
use drive_now.Api.Receiving.Routes.{
  Raw, post_car, get_cars, patch_car, remove_car, post_rental, post_end, receive, query_status,
  serve_raw,
}

module _ {V : Pydantic} where
  -- The fields that the body of a route declares.
  abbrev pub fields : Raw V → List String
  fields (post_car body) = car_fields
  fields (get_cars status) = []
  fields (patch_car car_id body) = patch_fields
  fields (remove_car car_id) = []
  fields (post_rental body) = rental_fields
  fields (post_end rental_id) = []

  abbrev pub body_of : Raw V → Option (Object V)
  body_of (post_car body) = body
  body_of (get_cars status) = none
  body_of (patch_car car_id body) = body
  body_of (remove_car car_id) = none
  body_of (post_rental body) = body
  body_of (post_end rental_id) = none

  receive-undeclared :
      (raw : Raw V) (o : Object V)
      → body_of raw ≡ some o
      → only (fields raw) o ≡ false
      → receive V raw ≡ none
  unfolding receive parse_car parse_patch parse_rental
  receive-undeclared (post_car body) o e h = rw e (rw h refl)
  receive-undeclared (get_cars status) o e h = absurd (cc)
  receive-undeclared (patch_car car_id body) o e h =
      rw e (elim (Option-cases (V.to_int (V.text car_id))) [
        | inl x ↦ rw x refl
        | inr (i, x) ↦ rw x (rw h refl)
      ])
  receive-undeclared (remove_car car_id) o e h = absurd (cc)
  receive-undeclared (post_rental body) o e h = rw e (rw h refl)
  receive-undeclared (post_end rental_id) o e h = absurd (cc)

-- A request whose body has a member that its route does not declare gets 422, and changes nothing.
pub serve_raw-undeclared :
    {V : Pydantic} {D : Database} {P : Publisher} (clock : Clock) (raw : Raw V) (o : Object V)
    (name : String) (i : V.Input) (w : World D P)
    → body_of raw ≡ some o
    → lookup name o ≡ some i
    → is_among name (fields raw) ≡ false
    → serve_raw V clock raw w ≡ (response 422 validation_error, w)
unfolding serve_raw
serve_raw-undeclared clock raw o name i w e f h =
    rw (receive-undeclared raw o e (only-lookup (fields raw) name i o f h)) refl

-- How a client writes values.
pub record Client (V : Pydantic) : Type 0 where
  pub null : V.Input
  pub number : ℕ → V.Input
  pub string : String → V.Input
  pub day : ℕ → V.Input
  pub print : ℕ → String

-- pydantic reads them as they are meant.
pub record IsRead (V : Pydantic) (C : Client V) : Type 0 where
  pub null_null : V.is_null C.null ≡ true
  pub null_number : (n : ℕ) → V.is_null (C.number n) ≡ false
  pub null_string : (s : String) → V.is_null (C.string s) ≡ false
  pub int_number : (n : ℕ) → V.to_int (C.number n) ≡ some n
  pub int_text : (n : ℕ) → V.to_int (V.text (C.print n)) ≡ some n
  pub str_string : (s : String) → V.to_str (C.string s) ≡ some s
  pub date_day : (n : ℕ) → V.to_date (C.day n) ≡ some n
  pub status_string : (s : CarStatus) → V.to_status (C.string (status_text s)) ≡ some s
  pub status_query : (s : CarStatus) → V.to_status (V.text (status_text s)) ≡ some s

module _ {V : Pydantic} (C : Client V) where
  abbrev pub dump_sent : {A : Type 0} → (A → V.Input) → String → Sent A → Object V → Object V
  dump_sent f name unset rest = rest
  dump_sent f name null rest = (name, C.null) ∷ rest
  dump_sent f name (value a) rest = (name, f a) ∷ rest

  abbrev pub dump_patch : Sent String → Sent ℕ → Sent CarStatus → Object V
  dump_patch model year status = dump_sent C.string "model" model (
      dump_sent C.number "year" year (dump_sent (λ s. C.string (status_text s)) "status" status []))

  -- A typed request as it is sent: a field that is unset is left out.
  abbrev pub dump : Request → Raw V
  dump (Request.post_car b) =
      post_car (some (("model", C.string b.model) ∷ ("year", C.number b.year) ∷ []))
  dump (Request.get_cars none) = get_cars none
  dump (Request.get_cars (some s)) = get_cars (some (status_text s))
  dump (Request.patch_car i b) = patch_car (C.print i) (some (dump_patch b.model b.year b.status))
  dump (Request.remove_car i) = remove_car (C.print i)
  dump (Request.post_rental b) = post_rental (
      some (
        ("car_id", C.number b.car_id)
        ∷ ("customer_name", C.string b.customer_name)
        ∷ ("start_date", C.day b.start_date)
        ∷ ("end_date", C.day b.end_date)
        ∷ []))
  dump (Request.post_end i) = post_end (C.print i)

  module _ (L : IsRead V C) where
    parse-dump_patch :
        (model : Sent String) (year : Sent ℕ) (status : Sent CarStatus)
        → parse_patch V (dump_patch model year status)
          ≡ some (record { model = model; year = year; status = status })
    unfolding parse_patch
    parse-dump_patch model year status = grind (
      arith, L.null_null, L.null_number, L.null_string, L.int_number, L.str_string, L.status_string,
    )

    -- If pydantic reads each value as the client means it, then a request of any route that a
    -- client writes, each field that is unset left out, is received as that request: a field that
    -- is left out, sent as null or sent with a value stays apart.
    pub receive-dump : (r : Request) → receive V (dump r) ≡ some r
    unfolding receive parse_car parse_rental
    receive-dump (Request.post_car b) = simp (L.str_string, L.int_number)
    receive-dump (Request.get_cars none) = refl
    receive-dump (Request.get_cars (some s)) = rw (L.status_query s, query_status) refl
    receive-dump (Request.patch_car i b) =
        simp (L.int_text, parse-dump_patch b.model b.year b.status)
    receive-dump (Request.remove_car i) = simp (L.int_text)
    receive-dump (Request.post_rental b) = simp (L.str_string, L.int_number, L.date_day)
    receive-dump (Request.post_end i) = simp (L.int_text)
