-- ===== src/Tests.antt =====
-- The theorems at small inputs.
pub mod Plain
pub mod Transactions
pub mod Watches
pub mod Parts
pub mod Proto
pub mod Conns
pub mod Startup
pub mod Delivery
