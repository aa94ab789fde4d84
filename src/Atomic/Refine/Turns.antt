-- ===== src/Atomic/Refine/Turns.antt =====
-- Every turn of `BoundedAtomicMpmcQueueV1`, `emplace` and `try_pop` together.
use yutil.Common.{ℕ, ◌+◌, ◌^◌, ◌<◌, Bool, refl}
use yutil.Atomic.Cells.{Cells, Place, move}
use yutil.Atomic.V1
use yutil.Atomic.Class.{Class}
use yutil.Atomic.System.{take_turn}
use yutil.Atomic.Protocol.{Board, Fits, Inv}
use yutil.Atomic.Refine.{Matches, IsMove, quiet-IsMove}
use yutil.Atomic.Refine.Push
use yutil.Atomic.Refine.Pop

module _ {A : Type 0} (moved : A → A) (k : ℕ) where
  pub take_turn-IsMove :
      {b : Board A} {q : Cells A} {places : ℕ → Place A}
      → Inv (2 ^ k) b places
      → Matches k b q
      → b.enq + 2 ^ k < 2 ^ 63
      → (fails : Bool) (p : Place A) → Fits (2 ^ k) b p
      → IsMove k b p (take_turn Class.v1 moved fails q p)
  unfolding take_turn V1.emplace V1.try_pop
  take_turn-IsMove inv m bound fails (Place.push_called x) f =
      Push.push_called-IsMove k inv m bound fails x
  take_turn-IsMove inv m bound fails (Place.push_start x) f =
      Push.load-IsMove k inv m bound fails x 0 refl
  take_turn-IsMove inv m bound fails (Place.push_look x pos spins) f =
      Push.push_look-IsMove k inv m bound fails x pos spins f
  take_turn-IsMove inv m bound fails (Place.push_reload x spins) f =
      Push.load-IsMove k inv m bound fails x spins refl
  take_turn-IsMove inv m bound fails (Place.push_claim x pos spins) f =
      Push.push_claim-IsMove k inv m bound fails x pos spins
  take_turn-IsMove inv m bound fails (Place.construct x pos) f =
      Push.construct-IsMove k inv m bound fails x pos f
  take_turn-IsMove inv m bound fails (Place.push_publish x pos) f =
      Push.push_publish-IsMove k inv m bound fails x pos f
  take_turn-IsMove inv m bound fails Place.pop_called f =
      Pop.load-IsMove k inv m bound moved fails 0 refl
  take_turn-IsMove inv m bound fails (Place.pop_look pos spins) f =
      Pop.pop_look-IsMove k inv m bound moved fails pos spins f
  take_turn-IsMove inv m bound fails (Place.pop_reload spins) f =
      Pop.load-IsMove k inv m bound moved fails spins refl
  take_turn-IsMove inv m bound fails (Place.pop_claim pos spins) f =
      Pop.pop_claim-IsMove k inv m bound moved fails pos spins
  take_turn-IsMove inv m bound fails (Place.read pos) f =
      Pop.read-IsMove k inv m bound moved fails pos f
  take_turn-IsMove inv m bound fails (Place.destroy pos v) f =
      Pop.destroy-IsMove k inv m bound moved fails pos v f
  take_turn-IsMove inv m bound fails (Place.pop_publish pos v) f =
      Pop.pop_publish-IsMove k inv m bound moved fails pos v f
  take_turn-IsMove {q = q} inv m bound fails Place.idle f =
      quiet-IsMove k (move q Place.idle) m refl refl refl tt tt
