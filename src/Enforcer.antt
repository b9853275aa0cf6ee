-- ===== src/Enforcer.antt =====
-- The package enforcer: policies, safety profiles, approvals, and the decision about a tool call.
pub mod Types
pub mod Engine
pub mod Approvals
pub mod Heuristics
pub mod Resolver
pub mod Call
pub mod Personal
