-- ===== src/Api.antt =====
-- The package pkg/api.
pub mod Removal
pub mod Field
pub mod Owners
pub mod Types
pub mod Event
pub mod Messages
pub mod PluginName
mod Tests
