-- ===== src/Ring.antt =====
-- The bounded queues over a ring buffer under a mutex.
pub mod Storage
pub mod Ops
pub mod V1
pub mod V2
pub mod V3
pub mod System
pub mod Class
pub mod Laws
pub mod Waiting
pub mod Contract
pub mod Lost
pub mod RoundTrip
mod Tests
