-- ===== src/Deque/Ops.antt =====
-- The operations that the unbounded queue classes share, each as the critical section that it runs
-- under the mutex, and the laws by which a class keeps the contract of `Fifo`.
use yutil.Common.{ℕ, suc, ◌+◌, ◌<◌, ◌≡◌, false, Option, [], word, length}
use yutil.Fifo.{Fifo, Wait, block, finish, Push, Legal, push, wait_pop, try_pop, close, empty_fifo}

-- `resume` is what a thread runs in `wait_pop` when it has the mutex again after `cv_.wait`.
pub record Ops {ℓ} (A S : Type ℓ) : Type ℓ where
  pub initial : S
  pub emplace : A → S → Push S
  pub wait_pop : S → Wait A S
  pub resume : S → Wait A S
  pub try_pop : S → Option A × S
  pub close : S → S

module _ {ℓ} {A S : Type ℓ} (view : S → Fifo A) where
  -- A wait sleeps only on an empty open queue, and then leaves the contents alone.
  abbrev pub WaitLegal : Fifo A → Wait A S → Type ℓ
  WaitLegal f (block s) = (f.items ≡ []) × (f.closed ≡ false) × (view s ≡ f)
  WaitLegal f (finish r s) = Legal (wait_pop r) f (view s)

  pub record IsFifo (ops : Ops A S) : Type ℓ where
    pub initial_lem : view ops.initial ≡ empty_fifo
    pub emplace_lem :
        (x : A) (s : S)
        → let p = ops.emplace x s in Legal (push x p.accepted) (view s) (view p.next)
    pub wait_pop_lem : (s : S) → WaitLegal (view s) (ops.wait_pop s)
    pub resume_lem : (s : S) → WaitLegal (view s) (ops.resume s)
    pub try_pop_lem : (s : S) → let (r, s') = ops.try_pop s in Legal (try_pop r) (view s) (view s')
    pub close_lem : (s : S) → Legal close (view s) (view (ops.close s))

module _ {ℓ} {A S : Type ℓ} where
  -- `Tracks s k`: the bookkeeping of `s` agrees with `k` threads between the start of a wait and
  -- the moment they hold the mutex again.
  abbrev pub TracksWait : (S → ℕ → Type 0) → ℕ → Wait A S → Type 0
  TracksWait T k (block s) = T s (suc k)
  TracksWait T k (finish r s) = T s k

  pub record IsTracked (Tracks : S → ℕ → Type 0) (ops : Ops A S) : Type ℓ where
    pub initial_lem : Tracks ops.initial 0
    pub emplace_lem : (x : A) (s : S) (k : ℕ) → Tracks s k → Tracks (ops.emplace x s).next k
    pub wait_pop_lem :
        (s : S) (k : ℕ) → Tracks s k → k + 1 < word → TracksWait Tracks k (ops.wait_pop s)
    pub resume_lem :
        (s : S) (k : ℕ) → Tracks s (suc k) → k + 1 < word → TracksWait Tracks k (ops.resume s)
    pub try_pop_lem : (s : S) (k : ℕ) → Tracks s k → Tracks (ops.try_pop s).1 k
    pub close_lem : (s : S) (k : ℕ) → Tracks s k → Tracks (ops.close s) k

  -- An accepted push notifies while there is such a thread.
  abbrev pub IsPrompt : (S → ℕ → Type 0) → Ops A S → Type ℓ
  IsPrompt Tracks ops =
      (x : A) (s : S) (k : ℕ)
      → Tracks s k
      → 0 < k
      → (ops.emplace x s).accepted ≡ (ops.emplace x s).notify

  -- It does so at least on an empty queue.
  abbrev pub IsEager : (S → Fifo A) → (S → ℕ → Type 0) → Ops A S → Type ℓ
  IsEager view Tracks ops =
      (x : A) (s : S) (k : ℕ)
      → Tracks s k
      → 0 < k
      → length (view s).items ≡ 0
      → (ops.emplace x s).accepted ≡ (ops.emplace x s).notify
