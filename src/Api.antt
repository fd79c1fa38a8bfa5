-- ===== src/Api.antt =====
-- api/v1alpha1: the resources that the operator reconciles.
pub mod Meta
pub mod AvailabilityGroup
pub mod Objects
pub mod Backups
pub mod SqlServer
