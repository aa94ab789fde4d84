-- ===== src/Deque/Class.antt =====
-- The seven classes, by name.
use yutil.Deque.Blocking
use yutil.Deque.Blocking.{MutexBlockingQueue}
use yutil.Deque.MpmcV1
use yutil.Deque.MpmcV1.{MutexDequeMpmcQueueV1}
use yutil.Deque.MpmcV2
use yutil.Deque.MpmcV2.{MutexDequeMpmcQueueV2}
use yutil.Deque.MpmcV3
use yutil.Deque.MpmcV3.{MutexDequeMpmcQueueV3}
use yutil.Deque.QueueV1
use yutil.Deque.QueueV1.{MutexDequeQueueV1}
use yutil.Deque.QueueV2
use yutil.Deque.QueueV2.{MutexDequeQueueV2}
use yutil.Deque.QueueV3
use yutil.Deque.QueueV3.{MutexDequeQueueV3}
use yutil.Common.{Bool, true, false}
use yutil.Fifo.{Fifo}
use yutil.Deque.Ops.{Ops}

pub data Class : Type 0 where
  blocking mpmc_v1 mpmc_v2 mpmc_v3 queue_v1 queue_v2 queue_v3 : Class

abbrev pub State {ℓ} : Class → Type ℓ → Type ℓ
State blocking = MutexBlockingQueue
State mpmc_v1 = MutexDequeMpmcQueueV1
State mpmc_v2 = MutexDequeMpmcQueueV2
State mpmc_v3 = MutexDequeMpmcQueueV3
State queue_v1 = MutexDequeQueueV1
State queue_v2 = MutexDequeQueueV2
State queue_v3 = MutexDequeQueueV3

module _ {ℓ} {A : Type ℓ} where
  abbrev pub view : (c : Class) → State c A → Fifo A
  view blocking = Blocking.view
  view mpmc_v1 = MpmcV1.view
  view mpmc_v2 = MpmcV2.view
  view mpmc_v3 = MpmcV3.view
  view queue_v1 = QueueV1.view
  view queue_v2 = QueueV2.view
  view queue_v3 = QueueV3.view

  abbrev pub ops : (c : Class) → Ops A (State c A)
  ops blocking = Blocking.ops
  ops mpmc_v1 = MpmcV1.ops
  ops mpmc_v2 = MpmcV2.ops
  ops mpmc_v3 = MpmcV3.ops
  ops queue_v1 = QueueV1.ops
  ops queue_v2 = QueueV2.ops
  ops queue_v3 = QueueV3.ops

-- The classes in which a push notifies whenever a consumer may be asleep. The other three notify
-- only on the way from empty to non-empty.
abbrev pub notifies_waiters : Class → Bool
notifies_waiters blocking = true
notifies_waiters mpmc_v1 = true
notifies_waiters mpmc_v3 = true
notifies_waiters queue_v1 = true
notifies_waiters _ = false
