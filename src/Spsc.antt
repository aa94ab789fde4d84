-- ===== src/Spsc.antt =====
-- ds/spsc_bounded_queue.hpp: `SpscBoundedQueue`, one producer and one consumer over a ring with no
-- lock.
pub mod Queue
pub mod System
pub mod Inv
pub mod Contract
pub mod Drain
pub mod Counters
pub mod Size
pub mod Progress
pub mod Tests
