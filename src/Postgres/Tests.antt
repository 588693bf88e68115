-- ===== src/Postgres/Tests.antt =====
-- The theorems on the PostgreSQL adapter at concrete inputs.
pub mod Bank
mod Methods
mod Contract
mod Relay
mod Delivered
mod Listings
