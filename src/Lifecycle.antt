-- ===== src/Lifecycle.antt =====
-- What the methods of the services mean to a customer and to the operator of the fleet, over several
-- calls.
pub mod Outcome
pub mod Rentals
pub mod Sequels
pub mod Updating
pub mod Cars
pub mod Listing
