-- ===== src/Net.antt =====
-- The package pkg/net.
pub mod Multiplex
