-- ===== src/Services.antt =====
-- The services behind the item pages (backend/app/services).
pub mod Serials
pub mod Alerts
pub mod Sharing
pub mod Trash
pub mod Swap
pub mod Maintenance
pub mod Restore
pub mod Settings
