-- ===== src/Ring/Ops.antt =====
-- The operations that the ring classes share, each as the critical section that it runs under the
-- mutex, and the laws by which a class keeps the contract of `Fifo.Bounded`.
use yutil.Common.{ℕ, ◌≡◌, ◌≤◌, Bool, true, false, Option, [], length}
use yutil.Fifo.{Fifo, empty_fifo}
use yutil.Fifo.Bounded.{Call, Legal, push, try_push, wait_pop, try_pop, close}

-- What a method signals: nothing, `notify_one` to a consumer or to a producer, `notify_all` on the
-- one condition variable that both sides share, or `notify_all` on `not_empty_cv_` and then on
-- `not_full_cv_`; `all_producers` is the second half of the last.
pub data Notice : Type 0 where
  quiet one_consumer one_producer everyone consumers_then_producers all_producers : Notice

-- How a critical section ends: with an access outside the vector, asleep on a condition variable,
-- or with a result, what was signalled under the mutex and what will be once it is free.
pub data Section {ℓ} (R S : Type ℓ) : Type ℓ where
  fault : Section R S
  block : S → Section R S
  done : R → Notice → Notice → S → Section R S

-- The result of a push, at the level of the items.
pub data Reply {ℓ} : Type ℓ where
  accepted refused : Reply

abbrev pub is_accepted {ℓ} : Reply {ℓ} → Bool
is_accepted accepted = true
is_accepted refused = false

-- `resume_push` and `resume_pop` are what a thread runs when it has the mutex again after a wait.
pub record Ops {ℓ} (A S : Type ℓ) : Type ℓ where
  pub initial : S
  pub emplace : A → S → Section Reply S
  pub resume_push : A → S → Section Reply S
  pub try_emplace : A → S → Section Reply S
  pub wait_pop : S → Section (Option A) S
  pub resume_pop : S → Section (Option A) S
  pub try_pop : S → Section (Option A) S
  pub close : S → Notice × S

module _ {ℓ} {A S : Type ℓ} (cap : ℕ) (Valid : S → Type 0) (view : S → Fifo A) (f : Fifo A) where
  -- A push sleeps only on an open queue that is full.
  abbrev pub PushLegal : (Bool → Call A) → Section Reply S → Type ℓ
  PushLegal call fault = A × ⊥
  PushLegal call (block s) = Valid s × (f.closed ≡ false) × (cap ≤ length f.items) × (view s ≡ f)
  PushLegal call (done r held after s) = Valid s × Legal cap (call (is_accepted r)) f (view s)

  -- A pop sleeps only on an open queue that is empty.
  abbrev pub PopLegal : (Option A → Call A) → Section (Option A) S → Type ℓ
  PopLegal call fault = A × ⊥
  PopLegal call (block s) = Valid s × (f.closed ≡ false) × (f.items ≡ []) × (view s ≡ f)
  PopLegal call (done r held after s) = Valid s × Legal cap (call r) f (view s)

module _ {ℓ} {A S : Type ℓ} (cap : ℕ) (Valid : S → Type 0) (view : S → Fifo A) where
  pub record IsBounded (ops : Ops A S) : Type ℓ where
    pub initial_lem : Valid ops.initial × (view ops.initial ≡ empty_fifo)
    pub emplace_lem :
        (x : A) (s : S) → Valid s → PushLegal cap Valid view (view s) (push x) (ops.emplace x s)
    pub resume_push_lem :
        (x : A) (s : S) → Valid s → PushLegal cap Valid view (view s) (push x) (ops.resume_push x s)
    pub try_emplace_lem :
        (x : A) (s : S)
        → Valid s
        → PushLegal cap Valid view (view s) (try_push x) (ops.try_emplace x s)
    pub wait_pop_lem :
        (s : S) → Valid s → PopLegal cap Valid view (view s) wait_pop (ops.wait_pop s)
    pub resume_pop_lem :
        (s : S) → Valid s → PopLegal cap Valid view (view s) wait_pop (ops.resume_pop s)
    pub try_pop_lem : (s : S) → Valid s → PopLegal cap Valid view (view s) try_pop (ops.try_pop s)
    pub close_lem :
        (s : S) → Valid s → Valid (ops.close s).1 × Legal cap close (view s) (view (ops.close s).1)
