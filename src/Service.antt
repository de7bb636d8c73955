-- ===== src/Service.antt =====
-- internal/service: the registration of an instance.
pub mod Systemd
pub mod Units
pub mod Reading
mod Examples
