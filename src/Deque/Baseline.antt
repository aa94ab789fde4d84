-- ===== src/Deque/Baseline.antt =====
-- ds/queue/mutex_deque_mpmc_queue_baseline.hpp: the alias for the class that the notes and the
-- benchmarks take as the baseline.
use yutil.Deque.MpmcV2.{MutexDequeMpmcQueueV2}

abbrev pub MutexDequeMpmcQueueBaseline {ℓ} : Type ℓ → Type ℓ
MutexDequeMpmcQueueBaseline A = MutexDequeMpmcQueueV2 A
