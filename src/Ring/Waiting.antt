-- ===== src/Ring/Waiting.antt =====
-- Each ring class signals where one thread of each side waits: what V3 counts, and when it signals.
use yutil.Common.{ℕ, ◌≡◌, refl, arith}
use yutil.Ring.Storage.Contents.{length-items}
use yutil.Ring.System.Alert.{IsAlert}
use yutil.Ring.Class.{Class, v1, v2, v3, State, view, ops, Valid, capacity_of}
use yutil.Ring.V1
use yutil.Ring.V2
use yutil.Ring.V3

-- What `waiting_consumers_` and `waiting_producers_` count, in the class that has them.
abbrev pub Tracks : (A : Type 0) (c : Class) → State c A → ℕ → ℕ → Type 0
Tracks A v3 s k m = (s.waiting_consumers ≡ k) × (s.waiting_producers ≡ m)
Tracks A c s k m = Unit

module _ {A : Type 0} (moved : A → A) (default : A) (n : ℕ) where
  v1-IsAlert : IsAlert (capacity_of n) V1.view (Tracks A v1) (Valid A v1 n) (V1.ops moved default n)
  unfolding V1.ops
  v1-IsAlert = record {
    initial_lem = tt;
    emplace_lem = λ x s k v t l. ground arith;
    resume_push_lem = λ x s k v t l. ground arith;
    try_emplace_lem = λ x s k m v t. ground arith;
    wait_pop_lem = λ s m v t l. ground arith;
    resume_pop_lem = λ s m v t l. ground arith;
    try_pop_lem = λ s k m v t. ground arith;
    close_lem = λ s k m t. tt;
  }

  v2-IsAlert : IsAlert (capacity_of n) V2.view (Tracks A v2) (Valid A v2 n) (V2.ops moved default n)
  unfolding V2.ops
  v2-IsAlert = record {
    initial_lem = tt;
    emplace_lem = λ x s k v t l. ground arith;
    resume_push_lem = λ x s k v t l. ground arith;
    try_emplace_lem = λ x s k m v t. ground (arith, length-items s.storage v.0);
    wait_pop_lem = λ s m v t l. ground arith;
    resume_pop_lem = λ s m v t l. ground arith;
    try_pop_lem = λ s k m v t. ground arith;
    close_lem = λ s k m t. tt;
  }

  v3-IsAlert : IsAlert (capacity_of n) V3.view (Tracks A v3) (Valid A v3 n) (V3.ops moved default n)
  unfolding V3.ops V3.initial
  v3-IsAlert = record {
    initial_lem = (refl, refl);
    emplace_lem = λ x s k v t l. ground (arith, length-items s.storage v.0);
    resume_push_lem = λ x s k v t l. ground (arith, length-items s.storage v.0);
    try_emplace_lem = λ x s k m v t. ground (arith, length-items s.storage v.0);
    wait_pop_lem = λ s m v t l. ground (arith, length-items s.storage v.0);
    resume_pop_lem = λ s m v t l. ground (arith, length-items s.storage v.0);
    try_pop_lem = λ s k m v t. ground (arith, length-items s.storage v.0);
    close_lem = λ s k m t. t;
  }

  pub ops-IsAlert :
      (c : Class)
      → IsAlert (capacity_of n) (view c) (Tracks A c) (Valid A c n) (ops c moved default n)
  ops-IsAlert v1 = v1-IsAlert
  ops-IsAlert v2 = v2-IsAlert
  ops-IsAlert v3 = v3-IsAlert
