-- ===== src/Tests/Sample.antt =====
-- A fleet of four cars: one is free, one is rented, one is under maintenance and one is retired.
use drive_now.Base.{ℕ, true, ◌≡◌, refl, none, some, List, [], ◌∷◌, arith}
use drive_now.Models.{CarStatus, available, in_use, under_maintenance, Car, Rental}
use drive_now.Models.Tables.{Tables}
use drive_now.Models.Tables.Check.{satisfies_sound}
use drive_now.Schemas.{CarCreate, CarUpdate, RentalCreate}
use drive_now.Database.{View, at, IsClean}
use drive_now.Database.Reference.{in_memory}
use drive_now.Messaging.{Publisher, Event, sent, raised, amqp_connection_error}
use drive_now.Action.{World}
use drive_now.Fleet.Consistent.{IsConsistent}
use drive_now.Models.Tables.Check.{satisfies}

abbrev pub row : ℕ → CarStatus → Car
row i s = record {
  id = i;
  model = "Leaf";
  year = 2020;
  status = s;
  deleted_at = none;
  created_at = 5;
  updated_at = 5;
}

abbrev pub leaf : Car
leaf = row 1 available

abbrev pub rented_leaf : Car
rented_leaf = row 2 in_use

abbrev pub broken_leaf : Car
broken_leaf = row 3 under_maintenance

abbrev pub old_leaf : Car
old_leaf = record (row 4 available) { deleted_at = some 9 }

abbrev pub open_rental : Rental
open_rental = record {
  id = 2;
  car_id = 2;
  customer_name = "Dana";
  start_date = 100;
  end_date = 105;
  returned_date = none;
  created_at = 6;
  updated_at = 6;
}

abbrev pub closed_rental : Rental
closed_rental = record open_rental { id = 1; car_id = 4; start_date = 90; returned_date = some 95 }

abbrev pub fleet : Tables
fleet = record {
  cars = leaf ∷ rented_leaf ∷ broken_leaf ∷ old_leaf ∷ [];
  rentals = open_rental ∷ closed_rental ∷ [];
}

fleet-satisfies : satisfies fleet ≡ true
unfolding satisfies
fleet-satisfies = refl

pub fleet-IsConsistent : IsConsistent fleet
fleet-IsConsistent = record {
  rows = satisfies_sound fleet fleet-satisfies;
  occupied = λ i. ground arith;
}

-- A publisher that records the events, and one that never reaches its broker.
abbrev pub recorder : Publisher
recorder = record { State = List Event; publish = λ e es. (sent, e ∷ es) }

abbrev pub unreachable : Publisher
unreachable = record { State = ℕ; publish = λ e n. (raised amqp_connection_error, n) }

abbrev pub between : View
between = at fleet fleet [] 20

pub between-IsClean : IsClean fleet between
between-IsClean = record { committed = refl; visible = refl; pending = refl }

abbrev pub world : World in_memory recorder
world = record { session = between; publisher = []; locks = []; log = [] }

abbrev pub new_leaf : CarCreate
new_leaf = record { model = "Leaf"; year = 2024 }

-- A body that sends the status only.
abbrev pub to_status : CarStatus → CarUpdate
to_status s = record { model = none; year = none; status = some s }

abbrev pub five_days : ℕ → RentalCreate
five_days i = record { car_id = i; customer_name = "Omer"; start_date = 100; end_date = 105 }
