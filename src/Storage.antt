-- ===== src/Storage.antt =====
-- Leases and claims that the repositories keep in PostgreSQL besides the jobs.
pub mod Leases
pub mod Snapshots
pub mod Cursors
pub mod Paging
