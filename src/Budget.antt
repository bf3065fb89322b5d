-- ===== src/Budget.antt =====
-- The budget component: sampark/budget/*.py.
pub mod Windows
pub mod Margin
pub mod Contact
pub mod Ledger
pub mod Pools
pub mod Claims
pub mod Issuance
pub mod Backing
pub mod Expiry
pub mod Consistency
