-- ===== src/Net/Multiplex.antt =====
-- The multiplexer of logical connections over one trunk (pkg/net/multiplex/mux.go).
pub mod Frames
pub mod Framing
pub mod Writing
pub mod Conns
pub mod Queues
pub mod Arrivals
pub mod Reads
pub mod Returns
pub mod Fifo
pub mod Valid
pub mod ValidRuns
pub mod Bounds
pub mod Messages
pub mod Delivery
mod Tests
