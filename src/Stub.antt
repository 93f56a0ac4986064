-- ===== src/Stub.antt =====
-- The plugin side of the protocol (pkg/stub/stub.go).
pub mod Handlers
pub mod Subscription
pub mod Synchronize
pub mod Collecting
pub mod Delivered
mod Tests
