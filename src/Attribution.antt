-- ===== src/Attribution.antt =====
-- The attribution component: sampark/attribution/baseline.py and sampark/attribution/credit.py.
pub mod Baseline
pub mod Credit
