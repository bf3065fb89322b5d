-- ===== src/Mediation.antt =====
-- The mediation component: sampark/mediation/*.py.
pub mod Lifecycle
pub mod HardFilter
pub mod Service
