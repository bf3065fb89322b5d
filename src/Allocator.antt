-- ===== src/Allocator.antt =====
-- The allocator component: sampark/allocator/*.py.
pub mod Candidate
pub mod Scoring
pub mod Outcomes
pub mod Greedy
