-- ===== src/Controller.antt =====
-- internal/controller: the reconcilers.
pub mod Effect
pub mod Env
pub mod Helpers
pub mod TestWorld
pub mod Fencing
pub mod Group
pub mod Schedule
pub mod Object
pub mod Servers
pub mod Watches
pub mod Database
pub mod DatabaseUser
pub mod Schema
pub mod Login
pub mod OneShot
pub mod Permission
