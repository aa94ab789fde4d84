-- ===== src/Atomic.antt =====
-- ds/queue/bounded_atomic_mpmc_queue_v1.hpp, _v2.hpp and _v3.hpp: bounded queues of cells that carry
-- a sequence number, for any number of producers and consumers, without a lock.
pub mod Cells
pub mod V1
pub mod V2
pub mod V3
pub mod Class
pub mod System
pub mod Protocol
pub mod Frame
pub mod Refine
pub mod Safety
pub mod Reached
pub mod Reasons
pub mod Contract
pub mod Refusals
pub mod Drain
pub mod Destructor
pub mod RealTime
pub mod Solo
pub mod Stalled
pub mod Alone
pub mod Sequential
pub mod Construct
pub mod Progress
pub mod Closing
pub mod Backoff
pub mod Versions
pub mod Tests
pub mod Schedules
pub mod Bystander
