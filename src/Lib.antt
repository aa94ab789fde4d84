-- ===== src/Lib.antt =====
-- yutil: queues in C++ that several threads share, each a class template in one header.
--
-- The parts, and the files that model them (a class keeps its name, and its functions theirs):
--
-- * ds/mutex_blocking_queue.hpp and ds/queue/mutex_deque_*.hpp are seven unbounded queues: a deque,
--   a flag and, in two of them, a count of waiting consumers under one mutex with one condition
--   variable. Deque/Blocking, MpmcV1 to MpmcV3 and QueueV1 to QueueV3 hold a class each, a critical
--   section of the mutex being one function; Baseline is the alias. Deque/Ops is the interface that
--   each class fills (Deque/Laws) and that the threads of Deque/System use. `Class` picks one.
-- * ds/queue/ring_mutex_mpmc_queue_v*.hpp are three bounded queues over a vector, with a mutex and
--   two condition variables. Ring/Storage is the vector with its indices, which the classes share
--   line for line, with Ring/Storage/Contents for the list that it holds and Ring/Storage/Abstract
--   for the states that no client can tell apart; Ring/V1 to V3, Ring/Ops, Ring/Laws and Ring/System are
--   as for the deques. What the classes promise to one producer and one consumer needs the counts of
--   waiting threads: Ring/Waiting ties them to the threads, for Ring/System/Alert and
--   Ring/System/Single.
-- * ds/spsc_bounded_queue.hpp is a bounded queue without a lock for one producer and one consumer.
--   Spsc/Queue holds the state and what each thread does between two accesses that the other can
--   observe; Spsc/System interleaves them; Spsc/Inv is the invariant, Spsc/Drain the destructor,
--   Spsc/Size the function `size` as two loads with other turns in between, and Spsc/Progress counts
--   the turns that a call takes.
-- * ds/queue/bounded_atomic_mpmc_queue_v*.hpp are three bounded queues of cells with a sequence
--   number, for any number of threads, without a lock. Atomic/Cells is the state and the places in
--   `emplace` and `try_pop` at which a thread can stand; Atomic/V1 to V3 hold a class each, a turn of
--   a thread from one shared access to the next being one clause; Atomic/System interleaves threads.
--   Atomic/Protocol is the same queue with unbounded positions and a record of what was claimed, its
--   moves and its invariant; Atomic/Refine takes each turn of V1 to a move, Atomic/Versions takes V2
--   and V3 to V1, and Atomic/Reached puts the two together for every reachable state. Atomic/Drain is
--   the loop of the destructor, `drain_remaining`, Atomic/Construct the constructor with its masked
--   index. Atomic/Alone is one call while nobody else runs, with the failures that its
--   compare-exchanges have, Atomic/Solo what a push alone does, Atomic/Sequential a list of such calls
--   beside the FIFO queue, and Atomic/Progress counts the turns that a call takes while others
--   interfere; Atomic/Stalled is about a thread that stops inside one, Atomic/Closing about `close`,
--   and Atomic/Backoff about the counter that V3 alone has.
-- * Capacity is `normalize_capacity`, which the SPSC queue and the three atomic queues contain in the
--   same words.
-- * Fifo is what the queues promise: a FIFO queue with a flag, without a bound or (Fifo/Bounded) with
--   one, the results that its calls may have, and the histories that these explain.
--
-- How threads are modelled. A schedule is a list of events. In Deque/System and Ring/System an event
-- is a critical section, or the delivery of a notification that has been sent, to one sleeper or to
-- all, or a spurious wakeup. Threads are counted and not named: those that are outside, that sleep,
-- and that have been woken and do not have the mutex yet; a notification that the source sends after
-- it has released the mutex is an event of its own, so others may come between. `run` is `none` for a
-- schedule that no threads can follow, such as a wakeup where nobody sleeps. In Spsc/System every
-- schedule runs, an event that a thread cannot take changes nothing, and an access to a slot that
-- must not happen sets `crashed`; so in Atomic/System, where each thread has a number. Atomic accesses
-- are sequentially consistent.
--
-- Numbers. `std::size_t` and `std::uint64_t` are natural numbers with the wrap at 2^64 written out
-- where the source can reach it: the counters of the SPSC queue, the count of waiting consumers and
-- the shift of `normalize_capacity`. The loop of `normalize_capacity` runs on fuel; 64 rounds are
-- enough for every request that it can round at all. That of `drain` ends within a round for each
-- place of the queue and one more. `drain_remaining`, and a call alone, take a list with one entry for
-- each turn, true where a compare-exchange may fail for no reason. The atomic queues compare positions as signed
-- 64-bit numbers, and the difference overflows at 2^63: what needs this takes schedules whose length
-- and capacity are below 2^63 together, since a position grows by at most one with an event.
--
-- Parameters. `moved` is what the move assignment of `T` leaves behind in a slot, and `default` the
-- value that the vector of a ring starts with; both are arbitrary.
--
-- Not modelled: weaker memory orders; exceptions and allocation; the deleted copy operations; the
-- alignment and padding of the members; tests/, benchmarks/ and notes/.
pub mod Atomic
pub mod Capacity
pub mod Common
pub mod Deque
pub mod Fifo
pub mod Ring
pub mod Spsc
