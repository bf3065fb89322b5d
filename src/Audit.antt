-- ===== src/Audit.antt =====
-- The audit component: sampark/audit/*.py.
pub mod Chain
