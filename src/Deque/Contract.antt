-- ===== src/Deque/Contract.antt =====
-- What the seven unbounded classes promise to threads that share a queue.
use yutil.Common.{ℕ, ◌+◌, ◌<◌, ◌≡◌, true, some, List, ◌++◌, length, word}
use yutil.Fifo.{Explained, accepted, delivered}
use yutil.Fifo.Order.{accepted-split}
use yutil.Deque.System.{System, Event, run, start}
use yutil.Deque.System.Linear.{run-Explained}
use yutil.Deque.System.Closing.{closed-sleeping}
use yutil.Deque.System.Wakeups
use yutil.Deque.System.Single
use yutil.Deque.System.Single.{OneConsumer}
use yutil.Deque.Class.{Class, State, view, ops, notifies_waiters}
use yutil.Deque.Laws.{Tracks, ops-IsFifo, ops-IsTracked, ops-IsPrompt, ops-IsEager}

module _ {ℓ} {A : Type ℓ} (c : Class) (n : ℕ) (es : List (Event A)) {t : System A (State c A)}
    (reached : run (ops c) es (start (ops c) n) ≡ some t) where
  -- In each of the seven classes, and however `n` threads interleave, the critical sections in the
  -- order of the mutex are a history of a closable FIFO queue: every push, pop and close returns
  -- what that queue returns, and the deque and the flag are its contents.
  pub linearizable : Explained t.log (view c t.queue)
  linearizable = run-Explained (view c) (ops c) (ops-IsFifo c) n es reached

  -- In each class and interleaving, the values handed out so far, followed by the contents of the
  -- deque, are the values accepted so far in the order of their acceptance: none is lost,
  -- duplicated or overtaken.
  pub fifo_order : accepted t.log ≡ delivered t.log ++ (view c t.queue).items
  fifo_order = accepted-split t.log (view c t.queue) linearizable

  -- In each class and interleaving, once the queue is closed and no `close` is still before its
  -- `notify_all`, no consumer sleeps.
  pub close_wakes : (view c t.queue).closed ≡ true → t.closing ≡ 0 → t.sleeping ≡ 0
  close_wakes = closed-sleeping (view c) (ops c) (ops-IsFifo c) n es reached

  -- In `MutexBlockingQueue`, `MutexDequeMpmcQueueV1`, `MutexDequeMpmcQueueV3` and
  -- `MutexDequeQueueV1`, with fewer than 2^64 threads in any interleaving: when no woken thread and
  -- no `notify_one` is outstanding and a consumer sleeps, the queue is empty.
  pub no_lost_wakeup :
      notifies_waiters c ≡ true
      → n < word
      → t.woken + t.notifying ≡ 0
      → 0 < t.sleeping
      → length (view c t.queue).items ≡ 0
  no_lost_wakeup p few =
      Wakeups.no_lost_wakeup (view c) (Tracks A c) (ops c) (ops-IsFifo c) (ops-IsTracked c)
        (ops-IsPrompt c p) n few es reached

  -- In each class, with fewer than 2^64 threads: if no wait starts while another thread waits, and
  -- no `notify_one` is outstanding while the consumer sleeps, the queue is empty.
  pub no_lost_wakeup_of_one :
      n < word
      → OneConsumer (ops c) es (start (ops c) n)
      → t.notifying ≡ 0
      → 0 < t.sleeping
      → length (view c t.queue).items ≡ 0
  no_lost_wakeup_of_one few =
      Single.no_lost_wakeup_single (view c) (Tracks A c) (ops c) (ops-IsFifo c) (ops-IsTracked c)
        (ops-IsEager c) n few es reached
