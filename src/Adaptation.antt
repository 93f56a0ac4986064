-- ===== src/Adaptation.antt =====
-- The package pkg/adaptation: how the answers of the plugins are collected into one result.
pub mod State
pub mod Entries
pub mod Lists
pub mod Maps
pub mod Settings
pub mod Limits
pub mod Adjust
pub mod Copy
pub mod Update
pub mod Sync
pub mod Relay
pub mod Requests
pub mod Registration
mod Tests
