-- ===== src/Tests/Requests.antt =====
-- Requests to the sample fleet.
use drive_now.Base.{◌≡◌, refl, some, none, List, [], ◌∷◌}
use drive_now.Models.{available}
use drive_now.Database.Reference.{in_memory-IsDatabase, in_memory-IsUp}
use drive_now.Schemas.Validation.{
  unset, null, value, CarPatch, RentalBody, validate_rental, validate_patch,
}
use drive_now.Schemas.{CarUpdate}
use drive_now.Api.{
  Clock, Request, get_cars, patch_car, remove_car, post_rental, post_end, serve, serve_all,
}
use drive_now.Api.Statuses.{expected}
use drive_now.Api.Serving.{serve_all-IsSettled, serve-status}
use drive_now.History.{IsSettled}
use drive_now.Tests.Sample.{fleet, fleet-IsConsistent, between-IsClean, world, five_days}

abbrev clock : Clock
clock = record { this_year = 2026; today = 100; instant = 21 }

abbrev rent_leaf : RentalBody
rent_leaf = record { car_id = 1; customer_name = "Omer"; start_date = 100; end_date = 105 }

abbrev null_model : CarPatch
null_model = record { model = null; year = unset; status = value available }

abbrev day : List (Clock × Request)
day =
    (clock, post_rental rent_leaf)
    ∷ (clock, post_rental (record rent_leaf { end_date = 99 }))
    ∷ (clock, patch_car 1 null_model)
    ∷ (clock, post_end 3)
    ∷ (clock, remove_car 1)
    ∷ (clock, get_cars none)
    ∷ []

accepted : validate_rental rent_leaf ≡ some (five_days 1)
unfolding validate_rental
accepted = refl

abbrev next_model : CarPatch
next_model = record { model = unset; year = value 2025; status = unset }

abbrev newer : CarUpdate
newer = record { model = none; year = some 2025; status = none }

accepted_patch : validate_patch 2026 next_model ≡ some newer
unfolding validate_patch
accepted_patch = refl

serve_all-IsSettled_example : IsSettled (serve_all day world).1
serve_all-IsSettled_example =
    serve_all-IsSettled in_memory-IsDatabase day world (fleet, between-IsClean, fleet-IsConsistent)

serve-status_example : (serve clock (post_end 1) world).0.status ≡ expected clock (post_end 1) fleet
serve-status_example =
    serve-status in_memory-IsDatabase in_memory-IsUp clock (post_end 1) fleet world refl
      between-IsClean fleet-IsConsistent

rent_leaf_created : expected clock (post_rental rent_leaf) fleet ≡ 201
unfolding validate_rental
rent_leaf_created = refl

null_refused : expected clock (patch_car 1 null_model) fleet ≡ 422
unfolding validate_patch
null_refused = refl
