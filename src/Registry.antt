-- ===== src/Registry.antt =====
-- The registry component: sampark/registry/*.py.
pub mod Store
pub mod Scope
pub mod Strikes
