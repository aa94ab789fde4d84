-- ===== src/Ring/Class.antt =====
-- The three ring classes, by name, made with the capacity that the client asks for.
use yutil.Common.{Bool, true, false, ℕ, ◌≡◌, ◌==◌, if◌then◌else◌}
use yutil.Fifo.{Fifo}
use yutil.Ring.Storage.Contents.{IsValid}
use yutil.Ring.Storage.{Storage}
use yutil.Ring.Ops.{Ops}
use yutil.Ring.V1
use yutil.Ring.V2
use yutil.Ring.V3
use yutil.Ring.V1.{RingMutexMpmcQueueV1}
use yutil.Ring.V2.{RingMutexMpmcQueueV2}
use yutil.Ring.V3.{RingMutexMpmcQueueV3}

pub data Class : Type 0 where
  v1 v2 v3 : Class

abbrev pub State {ℓ} : Class → Type ℓ → Type ℓ
State v1 = RingMutexMpmcQueueV1
State v2 = RingMutexMpmcQueueV2
State v3 = RingMutexMpmcQueueV3

-- `capacity == 0 ? 1 : capacity`
abbrev pub capacity_of : ℕ → ℕ
capacity_of n = if n == 0 then 1 else n

module _ {ℓ} {A : Type ℓ} where
  abbrev pub storage : (c : Class) → State c A → Storage A
  storage v1 s = s.storage
  storage v2 s = s.storage
  storage v3 s = s.storage

  abbrev pub view : (c : Class) → State c A → Fifo A
  view v1 = V1.view
  view v2 = V2.view
  view v3 = V3.view

  abbrev pub ops : (c : Class) → (A → A) → A → ℕ → Ops A (State c A)
  ops v1 = V1.ops
  ops v2 = V2.ops
  ops v3 = V3.ops

abbrev pub Valid {ℓ} : (A : Type ℓ) (c : Class) → ℕ → State c A → Type 0
Valid A c n s = IsValid (storage c s) × ((storage c s).capacity ≡ capacity_of n)

-- Whether every push and every blocking pop signals the other side, and whether `try_push` does.
abbrev pub always_signals : Class → Bool
always_signals v3 = false
always_signals _ = true

abbrev pub try_push_signals : Class → Bool
try_push_signals v1 = true
try_push_signals _ = false
