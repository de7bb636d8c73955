-- ===== src/Server.antt =====
-- internal/server: jobs, their manager and their broadcasts.
pub mod Job
pub mod Jobs
pub mod Progress
pub mod Coalescer
