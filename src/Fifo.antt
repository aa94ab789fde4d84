-- ===== src/Fifo.antt =====
-- The contract of the queues under ds/: a first-in first-out queue that can be closed, the calls
-- that a client makes with their results, and which results the contract allows.
pub mod Order
pub mod Bounded
use yutil.Common.{◌≡◌, Bool, true, false, Option, none, some, List, [], ◌∷◌, ◌++◌}

-- The items, oldest first, and whether the queue is closed.
pub record Fifo {ℓ} (A : Type ℓ) : Type ℓ where
  pub items : List A
  pub closed : Bool

abbrev pub empty_fifo {ℓ} : {A : Type ℓ} → Fifo A
empty_fifo = record { items = []; closed = false }

-- A call that has returned: `push` with its argument and its result, a pop with what it stored in
-- `out` (`none` where it returned false), and `close`.
pub data Call {ℓ} (A : Type ℓ) : Type ℓ where
  push : A → Bool → Call A
  wait_pop : Option A → Call A
  try_pop : Option A → Call A
  close : Call A

-- How a pop that waits ends its critical section: the thread goes to sleep on the condition
-- variable, or the method returns.
pub data Wait {ℓ} (A S : Type ℓ) : Type ℓ where
  block : S → Wait A S
  finish : Option A → S → Wait A S

-- The critical section of a push: what it returns, whether it calls `notify_one` once the mutex is
-- free, and the state that it leaves.
pub record Push {ℓ} (S : Type ℓ) : Type ℓ where
  pub accepted : Bool
  pub notify : Bool
  pub next : S

module _ {ℓ} {A : Type ℓ} where
  -- The results and the new contents that the contract allows.
  abbrev pub Legal : Call A → Fifo A → Fifo A → Type ℓ
  Legal (push x true) f g =
      (f.closed ≡ false) × (g ≡ record { items = f.items ++ (x ∷ []); closed = false })
  Legal (push x false) f g = (f.closed ≡ true) × (g ≡ f)
  Legal (wait_pop none) f g = (f.items ≡ []) × (f.closed ≡ true) × (g ≡ f)
  Legal (wait_pop (some x)) f g = f ≡ record { items = x ∷ g.items; closed = g.closed }
  Legal (try_pop none) f g = (f.items ≡ []) × (g ≡ f)
  Legal (try_pop (some x)) f g = f ≡ record { items = x ∷ g.items; closed = g.closed }
  Legal close f g = g ≡ record { items = f.items; closed = true }

  -- The calls of a history, newest first, lead from the empty queue to the given one.
  abbrev pub Explained : List (Call A) → Fifo A → Type ℓ
  Explained [] f = f ≡ empty_fifo
  Explained (c ∷ cs) g = (f : Fifo A) × Explained cs f × Legal c f g

  -- The values that were accepted and those that were handed out, oldest first.
  abbrev pub accepted : List (Call A) → List A
  accepted [] = []
  accepted (push x true ∷ cs) = accepted cs ++ (x ∷ [])
  accepted (_ ∷ cs) = accepted cs

  abbrev pub delivered : List (Call A) → List A
  delivered [] = []
  delivered (wait_pop (some x) ∷ cs) = delivered cs ++ (x ∷ [])
  delivered (try_pop (some x) ∷ cs) = delivered cs ++ (x ∷ [])
  delivered (_ ∷ cs) = delivered cs

-- One more item in front of what a loop of pops hands out.
abbrev pub add_item {ℓ} : {A S : Type ℓ} → A → Option (List A × S) → Option (List A × S)
add_item x none = none
add_item x (some (xs, end)) = some (x ∷ xs, end)
