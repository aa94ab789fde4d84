-- ===== src/Deque.antt =====
-- The unbounded queues: a `std::deque` under a mutex with one condition variable.
pub mod Ops
pub mod System
pub mod Blocking
pub mod MpmcV1
pub mod MpmcV2
pub mod MpmcV3
pub mod QueueV1
pub mod QueueV2
pub mod QueueV3
pub mod Baseline
pub mod Class
pub mod Laws
pub mod Contract
pub mod Lost
pub mod RoundTrip
mod Tests
