-- ===== src/Muxer.antt =====
-- The multiplexer of tools over backends: the package muxer.
pub mod Routing
pub mod Prefixes
pub mod Templates
pub mod Environment
pub mod Augment
pub mod Tests
