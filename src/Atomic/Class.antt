-- ===== src/Atomic/Class.antt =====
-- The three classes, by name.
use yutil.Common.{List, ℕ, Bool, Option}
use yutil.Atomic.Cells.{Cells, Drained, Place, Turn}
use yutil.Atomic.V1
use yutil.Atomic.V2
use yutil.Atomic.V3

pub data Class : Type 0 where
  v1 : Class
  v2 : Class
  v3 : Class

module _ {ℓ} {A : Type ℓ} where
  abbrev pub create : Class → ℕ → Cells A
  create Class.v1 = V1.create
  create Class.v2 = V2.create
  create Class.v3 = V3.create

  abbrev pub construct : Class → (fuel capacity : ℕ) → Option (Cells A)
  construct Class.v1 = V1.construct
  construct Class.v2 = V2.construct
  construct Class.v3 = V3.construct

  abbrev pub emplace : Class → Bool → Cells A → Place A → Option (Turn A)
  emplace Class.v1 = V1.emplace
  emplace Class.v2 = V2.emplace
  emplace Class.v3 = V3.emplace

  abbrev pub try_pop : Class → (A → A) → Bool → Cells A → Place A → Option (Turn A)
  try_pop Class.v1 = V1.try_pop
  try_pop Class.v2 = V2.try_pop
  try_pop Class.v3 = V3.try_pop

  abbrev pub close : Class → Cells A → Bool × Cells A
  close Class.v1 = V1.close
  close Class.v2 = V2.close
  close Class.v3 = V3.close

  abbrev pub drain_remaining : Class → (A → A) → List Bool → Cells A → Place A → Drained A
  drain_remaining Class.v1 = V1.drain_remaining
  drain_remaining Class.v2 = V2.drain_remaining
  drain_remaining Class.v3 = V3.drain_remaining
