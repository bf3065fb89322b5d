-- ===== src/Identity.antt =====
-- The identity component: sampark/identity/resolution.py.
pub mod Roots
pub mod UnionFind
pub mod Resolution
