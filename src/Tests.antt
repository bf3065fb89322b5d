-- ===== src/Tests.antt =====
-- Concrete inputs and the theorems applied to them.
pub mod Data
pub mod Budget
pub mod Lifecycle
pub mod Policy
pub mod Registry
pub mod Audit
pub mod Mediation
pub mod Allocator
pub mod Service
pub mod Compiler
pub mod Attribution
pub mod Identity
