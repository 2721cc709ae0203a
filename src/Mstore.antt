-- ===== src/Mstore.antt =====
-- The store in memory: lib/lixs/mstore and inc/lixs/mstore.
pub mod Database
pub mod SimpleAccess
pub mod Transaction
pub mod Store
