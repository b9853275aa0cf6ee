-- ===== src/Poolmgr.antt =====
-- The processes of the backends, their pools and the table of pools: the package poolmgr.
pub mod Env
pub mod Process
pub mod Pool
pub mod Manager
pub mod Recycler
pub mod Tests
