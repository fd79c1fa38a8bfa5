-- ===== src/Webhook.antt =====
-- The admission webhooks of api/v1alpha1: what a validator rejects, and the defaults.
pub mod Checks
pub mod Objects
pub mod Backups
pub mod AvailabilityGroup
pub mod SqlServer
pub mod Defaults
mod Tests
