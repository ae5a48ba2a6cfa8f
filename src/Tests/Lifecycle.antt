-- ===== src/Tests/Lifecycle.antt =====
-- Several calls in a row on the sample fleet.
use drive_now.Base.{◌≡◌, ◌↔◌, refl, none, some, arith, List, [], ◌∷◌, count, ◌==◌}
use drive_now.Models.{available, in_use, under_maintenance, Car, Rental}
use drive_now.Action.{ok, raised, domain, resume}
use drive_now.Database.Reference.{in_memory, in_memory-IsDatabase, in_memory-IsUp}
use drive_now.Models.Tables.Check.{satisfies}
use drive_now.Services.Errors.{
  car_has_active_rental, rental_already_ended, car_not_available, has_status, car_not_found,
  car_status_transition,
}
use drive_now.Services.Transaction.{transaction, publish}
use drive_now.Services.Rentals.{
  register_rental, end_rental, lend, start_rental, set_status, take_back, close_rental,
}
use drive_now.Services.Cars.{update_car, delete_car, list_cars, actual}
use drive_now.Repositories.Cars
use drive_now.Repositories.Cars.{find_live, has_status as selects}
use drive_now.Repositories.Rentals
use drive_now.Repositories.Rentals.{active_of}
use drive_now.Fleet
use drive_now.Fleet.Ending.{OfRetiredCar}
use drive_now.Fleet.Retention.{Retains}
use drive_now.History.{add, delete, register, finish, run}
use drive_now.History.Retention.{run-Retains}
use drive_now.Lifecycle.Rentals.{end_rental-car_not_found}
use drive_now.Lifecycle.Sequels.{register_rental-excludes, end_rental-frees, end_rental-twice}
use drive_now.Lifecycle.Cars.{update_car-overrides, update_car-Forbidden, delete_car-in_use}
use drive_now.Lifecycle.Listing.{delete_car-gone}
use drive_now.Fleet.Revision.{overridden}
use drive_now.Lifecycle.Updating.{Forbidden}
use drive_now.Tests.Sample.{
  fleet, fleet-IsConsistent, between-IsClean, world, new_leaf, to_status, five_days, open_rental,
  leaf,
}

-- The rental of the free car, as it is stored.
abbrev new_rental : Rental
new_rental = Fleet.rented 20 3 (five_days 1) leaf

registered : (register_rental 100 (five_days 1) world).0 ≡ ok new_rental
unfolding register_rental transaction resume lend start_rental set_status publish satisfies
    Cars.get_by_id_for_update Rentals.get_active_by_car Rentals.add active_of Cars.set_attributes
    Cars.update
registered = refl

ended : (end_rental 103 2 world).0 ≡ ok (Fleet.returned 20 103 open_rental)
unfolding end_rental transaction resume take_back close_rental set_status publish satisfies
    Cars.get_by_id_for_update Rentals.get_by_id Rentals.get_by_id_for_update Rentals.set_attributes
    Rentals.update Cars.set_attributes Cars.update
ended = refl

abbrev serviced : Car
serviced = record leaf { status = under_maintenance; updated_at = 20 }

updated : (update_car 1 (to_status under_maintenance) world).0 ≡ ok serviced
unfolding update_car transaction resume actual publish satisfies Cars.get_by_id_for_update
    Cars.set_attributes Cars.update
updated = refl

deleted : (delete_car 21 1 world).0 ≡ ok (Fleet.retired 20 21 leaf)
unfolding delete_car transaction resume publish satisfies Cars.get_by_id_for_update Cars.soft_delete
    Rentals.get_active_by_car active_of
deleted = refl

end_rental-car_not_found_example :
    ((end_rental 103 1 world).0 ≡ raised (domain (car_not_found 4))) ↔ OfRetiredCar 1 4 fleet
end_rental-car_not_found_example =
    end_rental-car_not_found in_memory-IsDatabase in_memory-IsUp fleet world between-IsClean
      fleet-IsConsistent 103 1 4

register_rental-excludes_example :
    (register_rental 100 (five_days 1) (register_rental 100 (five_days 1) world).1).0
    ≡ raised (domain (car_not_available 1 (has_status in_use)))
register_rental-excludes_example =
    register_rental-excludes in_memory-IsDatabase in_memory-IsUp fleet world between-IsClean
      fleet-IsConsistent 100 (five_days 1) new_rental (five_days 1) (omega arith) registered
      (omega arith) refl

end_rental-frees_example :
    let w₁ = (register_rental 100 (five_days 1) world).1 in
    let w₂ = (end_rental 103 3 w₁).1 in
    ((end_rental 103 3 w₁).0 ≡ ok (Fleet.returned (in_memory.view w₁.session).now 103 new_rental))
    × ((r : Rental) × ((register_rental 100 (five_days 1) w₂).0 ≡ ok r))
end_rental-frees_example =
    end_rental-frees in_memory-IsDatabase in_memory-IsUp fleet world between-IsClean
      fleet-IsConsistent 100 (five_days 1) new_rental 103 (five_days 1) (omega arith) registered
      (omega arith) (omega arith) refl

update_car-overrides_example :
    (car : Car) × (find_live 1 fleet.cars ≡ some car)
    × (record serviced { updated_at = car.updated_at }
        ≡ overridden car (to_status under_maintenance))
    × ((serviced.status ≡ in_use) ↔ (car.status ≡ in_use))
update_car-overrides_example =
    update_car-overrides in_memory-IsDatabase in_memory-IsUp fleet world between-IsClean
      fleet-IsConsistent 1 (to_status under_maintenance) serviced updated

update_car-Forbidden_example :
    ((update_car 1 (to_status in_use) world).0
      ≡ raised (domain (car_status_transition available in_use)))
    ↔ ((car : Car) × (find_live 1 fleet.cars ≡ some car)
        × (car.status ≡ available)
        × (some in_use ≡ some in_use)
        × Forbidden available in_use)
update_car-Forbidden_example =
    update_car-Forbidden in_memory-IsDatabase in_memory-IsUp fleet world between-IsClean
      fleet-IsConsistent 1 (to_status in_use) available in_use

delete_car-in_use_example :
    ((delete_car 21 1 world).0 ≡ raised (domain (car_has_active_rental 1)))
    ↔ ((car : Car) × (find_live 1 fleet.cars ≡ some car) × (car.status ≡ in_use))
delete_car-in_use_example =
    delete_car-in_use in_memory-IsDatabase in_memory-IsUp fleet world between-IsClean
      fleet-IsConsistent 21 1

end_rental-twice_example :
    (end_rental 104 2 (end_rental 103 2 world).1).0 ≡ raised (domain (rental_already_ended 2))
end_rental-twice_example =
    end_rental-twice in_memory-IsDatabase in_memory-IsUp fleet world between-IsClean
      fleet-IsConsistent 103 2 (Fleet.returned 20 103 open_rental) 104 ended

delete_car-gone_example :
    let w = (delete_car 21 1 world).1 in
    ((delete_car 22 1 w).0 ≡ raised (domain (car_not_found 1)))
    × ((cars : List Car) × (list_cars none w ≡ (ok cars, w)) × (count (λ c. c.id == 1) cars ≡ 0))
    × ((in_memory.view w.session).visible.rentals ≡ fleet.rentals)
delete_car-gone_example =
    delete_car-gone in_memory-IsDatabase in_memory-IsUp fleet world between-IsClean
      fleet-IsConsistent 21 1 (Fleet.retired 20 21 leaf) 22 none deleted

run-Retains_example :
    Retains fleet
      (in_memory.view
        (run
          (register 100 (five_days 1) ∷ finish 103 3 ∷ delete 21 1 ∷ add new_leaf ∷ [])
          world).session).committed
run-Retains_example =
    run-Retains in_memory-IsDatabase
      (register 100 (five_days 1) ∷ finish 103 3 ∷ delete 21 1 ∷ add new_leaf ∷ []) world
      (fleet, between-IsClean, fleet-IsConsistent) (omega arith, (tt, (tt, (tt, tt))))
