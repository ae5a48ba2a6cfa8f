-- ===== src/Tests.antt =====
-- A small fleet, the calls of the services on it, and the theorems at concrete inputs.
pub mod Sample
mod Methods
mod Messages
mod Requests
mod Lifecycle
mod Platform
mod Overlap
mod Client
mod Delivery
mod Upgrade
