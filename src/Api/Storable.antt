-- ===== src/Api/Storable.antt =====
-- Which requests PostgreSQL can take. `Path(gt=0)` and `Field(gt=0)` have no upper bound, and the texts
-- are only measured, but a key beyond its INTEGER column and a text with the character NUL are refused
-- by the first statement that binds them. That refusal is not modelled.
use Prim.Native.Char.{code}
use drive_now.Base.{String, Bool, true, ◌&&◌, Option, none, some, ltb, leb}
use drive_now.Models.{last_integer}
use drive_now.Schemas.Validation.{Sent, unset, null, value}
use drive_now.Api.{Request, post_car, get_cars, patch_car, remove_car, post_rental, post_end}

abbrev pub storable_text : String → Bool
storable_text String.[] = true
storable_text (String.◌∷◌ c s) = ltb 0 (code c) && storable_text s

abbrev pub storable_field : Sent String → Bool
storable_field unset = true
storable_field null = true
storable_field (value s) = storable_text s

abbrev pub is_storable : Request → Bool
is_storable (post_car b) = storable_text b.model
is_storable (get_cars status) = true
is_storable (patch_car car_id b) = leb car_id last_integer && storable_field b.model
is_storable (remove_car car_id) = leb car_id last_integer
is_storable (post_rental b) = leb b.car_id last_integer && storable_text b.customer_name
is_storable (post_end rental_id) = leb rental_id last_integer

-- A request that cannot be converted takes nothing to the database.
abbrev pub is_none_or_storable : Option Request → Bool
is_none_or_storable none = true
is_none_or_storable (some r) = is_storable r
