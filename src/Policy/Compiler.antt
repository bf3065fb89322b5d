-- ===== src/Policy/Compiler.antt =====
-- sampark/policy/compiler/: from an untrusted rule in the closed grammar to a hard rule.
pub mod Ir
pub mod Validate
pub mod Generate
pub mod Redundancy
pub mod Acceptance
pub mod Presence
pub mod Totality
pub mod Effect
