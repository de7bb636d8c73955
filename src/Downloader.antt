-- ===== src/Downloader.antt =====
-- pkg/hfdownloader: retries, filters and the download plan.
pub mod Retry
pub mod Filters
pub mod Kinds
pub mod Repo
pub mod Inventory
pub mod Selection
pub mod Plan
mod Examples
