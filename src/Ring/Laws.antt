-- ===== src/Ring/Laws.antt =====
-- Each ring class keeps the contract of a FIFO queue of its capacity.
use yutil.Common.{ℕ, ◌<◌, ◌≡◌, refl, ap, true, false, word, arith}
use yutil.Ring.Storage.{create}
use yutil.Ring.Storage.Contents.{length-items, put_lem, take_lem, create-IsValid, items-create}
use yutil.Ring.Ops.{IsBounded}
use yutil.Ring.System.Wakeups.{IsSignalling}
use yutil.Ring.System.Closing.{ClosesAll}
use yutil.Ring.Class.{
  always_signals, try_push_signals, Class, v1, v2, v3, view, ops, Valid, capacity_of,
}
use yutil.Ring.V1
use yutil.Ring.V2
use yutil.Ring.V3

module _ {A : Type 0} (moved : A → A) (default : A) (n : ℕ) (small : n < word) where
  create-capacity : (create default n).capacity ≡ capacity_of n
  unfolding create
  create-capacity = refl

  v1-IsBounded : IsBounded (capacity_of n) (Valid A v1 n) V1.view (V1.ops moved default n)
  unfolding V1.ops
  v1-IsBounded = record {
    initial_lem = (
      (create-IsValid default n small, create-capacity),
      ap (λ xs. record { items = xs; closed = false }) (items-create default n),
    );
    emplace_lem = λ x s v. ground (arith, put_lem x s.storage v.0, length-items s.storage v.0);
    resume_push_lem = λ x s v. ground (arith, put_lem x s.storage v.0, length-items s.storage v.0);
    try_emplace_lem = λ x s v. ground (arith, put_lem x s.storage v.0, length-items s.storage v.0);
    wait_pop_lem = λ s v. ground (arith, take_lem moved s.storage v.0, length-items s.storage v.0);
    resume_pop_lem =
        λ s v. ground (arith, take_lem moved s.storage v.0, length-items s.storage v.0);
    try_pop_lem = λ s v. ground (arith, take_lem moved s.storage v.0, length-items s.storage v.0);
    close_lem = λ s v. (v, refl);
  }

  v2-IsBounded : IsBounded (capacity_of n) (Valid A v2 n) V2.view (V2.ops moved default n)
  unfolding V2.ops
  v2-IsBounded = record {
    initial_lem = (
      (create-IsValid default n small, create-capacity),
      ap (λ xs. record { items = xs; closed = false }) (items-create default n),
    );
    emplace_lem = λ x s v. ground (arith, put_lem x s.storage v.0, length-items s.storage v.0);
    resume_push_lem = λ x s v. ground (arith, put_lem x s.storage v.0, length-items s.storage v.0);
    try_emplace_lem = λ x s v. ground (arith, put_lem x s.storage v.0, length-items s.storage v.0);
    wait_pop_lem = λ s v. ground (arith, take_lem moved s.storage v.0, length-items s.storage v.0);
    resume_pop_lem =
        λ s v. ground (arith, take_lem moved s.storage v.0, length-items s.storage v.0);
    try_pop_lem = λ s v. ground (arith, take_lem moved s.storage v.0, length-items s.storage v.0);
    close_lem = λ s v. (v, refl);
  }

  v3-IsBounded : IsBounded (capacity_of n) (Valid A v3 n) V3.view (V3.ops moved default n)
  unfolding V3.ops
  v3-IsBounded = record {
    initial_lem = (
      (create-IsValid default n small, create-capacity),
      ap (λ xs. record { items = xs; closed = false }) (items-create default n),
    );
    emplace_lem = λ x s v. ground (arith, put_lem x s.storage v.0, length-items s.storage v.0);
    resume_push_lem = λ x s v. ground (arith, put_lem x s.storage v.0, length-items s.storage v.0);
    try_emplace_lem = λ x s v. ground (arith, put_lem x s.storage v.0, length-items s.storage v.0);
    wait_pop_lem = λ s v. ground (arith, take_lem moved s.storage v.0, length-items s.storage v.0);
    resume_pop_lem =
        λ s v. ground (arith, take_lem moved s.storage v.0, length-items s.storage v.0);
    try_pop_lem = λ s v. ground (arith, take_lem moved s.storage v.0, length-items s.storage v.0);
    close_lem = λ s v. (v, refl);
  }

  pub ops-IsBounded :
      (c : Class) → IsBounded (capacity_of n) (Valid A c n) (view c) (ops c moved default n)
  ops-IsBounded v1 = v1-IsBounded
  ops-IsBounded v2 = v2-IsBounded
  ops-IsBounded v3 = v3-IsBounded

  -- The classes that signal the other side after every push and every blocking pop. In V1
  -- `try_push` does so too.
  v1-IsSignalling : IsSignalling (capacity_of n) (Valid A v1 n) true (V1.ops moved default n)
  unfolding V1.ops
  v1-IsSignalling = record {
    emplace_lem = λ x s v. ground arith;
    resume_push_lem = λ x s v. ground arith;
    try_emplace_lem = λ x s e v. ground arith;
    wait_pop_lem = λ s v. ground arith;
    resume_pop_lem = λ s v. ground arith;
  }

  v2-IsSignalling : IsSignalling (capacity_of n) (Valid A v2 n) false (V2.ops moved default n)
  unfolding V2.ops
  v2-IsSignalling = record {
    emplace_lem = λ x s v. ground arith;
    resume_push_lem = λ x s v. ground arith;
    try_emplace_lem = λ x s e v. cc;
    wait_pop_lem = λ s v. ground arith;
    resume_pop_lem = λ s v. ground arith;
  }

  pub ops-IsSignalling :
      (c : Class)
      → always_signals c ≡ true
      → IsSignalling (capacity_of n) (Valid A c n) (try_push_signals c) (ops c moved default n)
  ops-IsSignalling v1 h = v1-IsSignalling
  ops-IsSignalling v2 h = v2-IsSignalling
  ops-IsSignalling v3 h = cc

  pub ops-ClosesAll : (c : Class) → ClosesAll (ops c moved default n)
  unfolding V1.ops V2.ops V3.ops
  ops-ClosesAll v1 s = (refl, refl)
  ops-ClosesAll v2 s = (refl, refl)
  ops-ClosesAll v3 s = (refl, refl)
