-- ===== src/Services.antt =====
-- The business logic of app/services.
pub mod Errors
pub mod Transaction
pub mod Cars
pub mod Rentals
