-- ===== src/Ratelimit.antt =====
-- ratelimit/ratelimit.go: token buckets, one pair for each user and backend.
pub mod Cost
pub mod Clock
pub mod Bucket
pub mod State
pub mod Manager
mod Tests
