-- ===== src/Apps.antt =====
-- src/apps: the apps that draw.
pub mod Scheduler
pub mod Settings
pub mod SettingsStore
