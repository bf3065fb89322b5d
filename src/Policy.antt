-- ===== src/Policy.antt =====
-- The hard policy: sampark/policy/types.py and sampark/policy/hard/*.py.
pub mod Verdict
pub mod Hard
pub mod Compiler
