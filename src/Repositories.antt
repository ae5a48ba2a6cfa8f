-- ===== src/Repositories.antt =====
-- The data access layer, app/repositories: the SQLAlchemy implementations of `CarRepository` and
-- `RentalRepository`. A query is read on the rows that the transaction sees.
pub mod Cars
pub mod Rentals
pub mod Calls
pub mod Lookup
pub mod Interface
pub mod Conforms
