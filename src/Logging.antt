-- ===== src/Logging.antt =====
-- internal/logging: the bounded ring of records and the rotating file.
pub mod Ring
pub mod Files
pub mod Feed
pub mod Pipeline
