-- ===== src/Tests/Methods.antt =====
-- The methods of the services on the sample fleet.
use drive_now.Repositories.Interface.{
  sqlalchemy_cars, sqlalchemy_rentals, IsCarRepository, IsRentalRepository,
}
use drive_now.Repositories.Conforms.{
  sqlalchemy_cars-IsCarRepository, sqlalchemy_rentals-IsRentalRepository,
}
use drive_now.Base.{arith, [], ◌∷◌}
use drive_now.Models.{under_maintenance}
use drive_now.Database.Reference.{in_memory, in_memory-IsDatabase}
use drive_now.Services.Rentals.{register_rental, end_rental}
use drive_now.Services.Cars.{add_car, update_car, delete_car}
use drive_now.Fleet
use drive_now.Fleet.Revision.{revise}
use drive_now.Refinement.{Fulfils}
use drive_now.Refinement.Rentals.{
  CanRegister, started_report, ended_report, register_rental-Fulfils, end_rental-Fulfils,
}
use drive_now.Refinement.Cars.{
  add_car-Fulfils, update_car-Fulfils, delete_car-Fulfils, updated, added_report, update_report,
  retired_report,
}
use drive_now.Fleet.Consistent.{IsConsistent}
use drive_now.History.{add, delete, register, finish, run, IsSettled, run-IsSettled}
use drive_now.Tests.Sample.{
  recorder, fleet, fleet-IsConsistent, between-IsClean, world, new_leaf, to_status, five_days,
}

register_rental-Fulfils_example :
    Fulfils
      (CanRegister (five_days 1) fleet)
      fleet
      (Fleet.register 20 3 100 (five_days 1) fleet)
      (λ both. both.0)
      started_report
      world
      (register_rental 100 (five_days 1) world)
register_rental-Fulfils_example =
    register_rental-Fulfils in_memory-IsDatabase 100 (five_days 1) fleet world between-IsClean

end_rental-Fulfils_example :
    Fulfils
      (IsConsistent fleet)
      fleet
      (Fleet.finish 20 103 2 fleet)
      (λ both. both.0)
      ended_report
      world
      (end_rental 103 2 world)
end_rental-Fulfils_example =
    end_rental-Fulfils in_memory-IsDatabase 103 2 fleet world between-IsClean

add_car-Fulfils_example :
    Fulfils
      (IsConsistent fleet)
      fleet
      (Fleet.add 20 5 new_leaf fleet)
      (λ car. car)
      added_report
      world
      (add_car new_leaf world)
add_car-Fulfils_example = add_car-Fulfils in_memory-IsDatabase new_leaf fleet world between-IsClean

update_car-Fulfils_example :
    Fulfils
      (IsConsistent fleet)
      fleet
      (revise 20 1 (to_status under_maintenance) fleet)
      updated
      update_report
      world
      (update_car 1 (to_status under_maintenance) world)
update_car-Fulfils_example =
    update_car-Fulfils in_memory-IsDatabase 1 (to_status under_maintenance) fleet world
      between-IsClean

delete_car-Fulfils_example :
    Fulfils
      (IsConsistent fleet)
      fleet
      (Fleet.delete 20 21 1 fleet)
      (λ car. car)
      retired_report
      world
      (delete_car 21 1 world)
delete_car-Fulfils_example =
    delete_car-Fulfils in_memory-IsDatabase 21 1 fleet world between-IsClean

run-IsSettled_example :
    IsSettled
      (run (register 100 (five_days 1) ∷ finish 103 3 ∷ delete 21 1 ∷ add new_leaf ∷ []) world)
run-IsSettled_example =
    run-IsSettled in_memory-IsDatabase
      (register 100 (five_days 1) ∷ finish 103 3 ∷ delete 21 1 ∷ add new_leaf ∷ []) world
      (omega arith, (tt, (tt, (tt, tt)))) (fleet, between-IsClean, fleet-IsConsistent)

sqlalchemy_cars-IsCarRepository_example :
    IsCarRepository (sqlalchemy_cars {D = in_memory} {P = recorder})
sqlalchemy_cars-IsCarRepository_example = sqlalchemy_cars-IsCarRepository in_memory-IsDatabase

sqlalchemy_rentals-IsRentalRepository_example :
    IsRentalRepository (sqlalchemy_rentals {D = in_memory} {P = recorder})
sqlalchemy_rentals-IsRentalRepository_example =
    sqlalchemy_rentals-IsRentalRepository in_memory-IsDatabase
