-- ===== src/Ring/Contract.antt =====
-- What the three ring classes promise to threads that share a queue.
use yutil.Common.{ℕ, ◌<◌, ◌≤◌, ◌≡◌, ◌⊎◌, true, false, some, List, [], ◌++◌, length, word, arith}
use yutil.Fifo.Bounded.{Explained, accepted, delivered, Explained-IsOrdered}
use yutil.Ring.System.{System, Event, run, start}
use yutil.Ring.System.Linear.{run-Explained}
use yutil.Ring.System.Closing.{closed-sleeping}
use yutil.Ring.System.Single
use yutil.Ring.System.Single.{OnePair}
use yutil.Ring.Waiting.{Tracks, ops-IsAlert}
use yutil.Ring.System.Wakeups.{AllAllowed, no_lost_wakeup}
use yutil.Ring.Class.{Class, State, view, ops, Valid, capacity_of, always_signals, try_push_signals}
use yutil.Ring.Laws.{ops-IsBounded, ops-IsSignalling, ops-ClosesAll}

module _ {A : Type 0} (c : Class) (moved : A → A) (default : A) (capacity : ℕ)
    (small : capacity < word) (n : ℕ) (es : List (Event A)) {t : System A (State c A)}
    (reached : run (ops c moved default capacity) es (start (ops c moved default capacity) n)
      ≡ some t) where
  -- In each of the three ring classes, for every capacity below 2^64, every value that a move may
  -- leave behind, and however `n` threads interleave: no access is outside the vector, and the
  -- critical sections in the order of the mutex are a history of a closable FIFO queue of the
  -- capacity asked for (1 for 0), whose contents the ring holds.
  pub ring_linearizable :
      (t.crashed ≡ false) × Explained (capacity_of capacity) t.log (view c t.queue)
  ring_linearizable =
      let r =
        run-Explained (capacity_of capacity) (Valid A c capacity) (view c)
          (ops c moved default capacity) (ops-IsBounded moved default capacity small c) n es
          reached in
      (r.1, r.2)

  -- Under the same conditions, the values handed out so far, followed by the contents of the ring,
  -- are the values accepted so far in order, and the ring holds no more than its capacity.
  pub ring_order :
      (accepted t.log ≡ delivered t.log ++ (view c t.queue).items)
      × (length (view c t.queue).items ≤ capacity_of capacity)
  ring_order = Explained-IsOrdered (capacity_of capacity) t.log (view c t.queue) ring_linearizable.1

  -- In each ring class and interleaving, once the queue is closed and no thread is about to signal,
  -- neither a consumer nor a producer sleeps.
  pub ring_close_wakes :
      (view c t.queue).closed ≡ true → t.pending ≡ [] → (t.consumers ≡ 0) × (length t.producers ≡ 0)
  ring_close_wakes =
      closed-sleeping (capacity_of capacity) (Valid A c capacity) (view c)
        (ops c moved default capacity) (ops-IsBounded moved default capacity small c)
        (ops-ClosesAll moved default capacity small c) n es reached

  -- In V1 without calls of `try_pop`, and in V2 without calls of `try_pop` and `try_push`, in any
  -- interleaving: when no thread is about to signal and none is woken, a consumer sleeps only while
  -- the ring is empty, and a producer only while it is full; so never both.
  pub ring_no_lost_wakeup :
      always_signals c ≡ true
      → AllAllowed (try_push_signals c) es
      → t.pending ≡ []
      → t.consumers_woken ≡ 0
      → length t.producers_woken ≡ 0
      → ((t.consumers ≡ 0) ⊎ (length (view c t.queue).items ≡ 0))
        × ((length t.producers ≡ 0) ⊎ (length (view c t.queue).items ≡ capacity_of capacity))
  ring_no_lost_wakeup signals allowed p q r = ground (
    arith,
    no_lost_wakeup (capacity_of capacity) (Valid A c capacity) (view c)
        (ops c moved default capacity) (ops-IsBounded moved default capacity small c)
        (try_push_signals c) (ops-IsSignalling moved default capacity small c signals) n es reached
        allowed p q r,
    ring_order,
    ring_close_wakes,
  )

  -- In each ring class and interleaving in which no `push` starts while another one waits, no
  -- `wait_pop` while another one waits, and `try_pop` is called only while no producer sleeps: when
  -- no thread is about to signal, the consumer sleeps only while the ring is empty, and the producer
  -- only while it is full.
  pub ring_no_lost_wakeup_of_one :
      OnePair (ops c moved default capacity) es (start (ops c moved default capacity) n)
      → t.pending ≡ []
      → ((t.consumers ≡ 0) ⊎ (length (view c t.queue).items ≡ 0))
        × ((length t.producers ≡ 0) ⊎ (length (view c t.queue).items ≡ capacity_of capacity))
  ring_no_lost_wakeup_of_one pair quiet = ground (
    arith,
    Single.no_lost_wakeup (capacity_of capacity) (ground arith) (Valid A c capacity) (view c)
        (Tracks A c) (ops c moved default capacity) (ops-IsBounded moved default capacity small c)
        (ops-IsAlert moved default capacity c) n es reached pair quiet,
    ring_order,
    ring_close_wakes,
  )
