-- ===== src/Api/Receiving.antt =====
-- Requests as they are sent, before their parts have the declared types.
pub mod Routes
pub mod Parts
