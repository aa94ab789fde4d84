-- ===== src/Ring/Storage/Tests.antt =====
-- Two rings that hold the same items at other places, and the theorem of `Abstract` at capacity 3.
use yutil.Common.{ℕ, ◌≡◌, refl, some, [], ◌∷◌, arith}
use native.Mathlib.Nat.{ℕ_set}
use mathlib.Core.Equiv.{◌≃◌}
use mathlib.Core.Quot
use yutil.Ring.Storage.{Storage, create, put, take}
use yutil.Ring.Storage.Contents.{items}
use yutil.Ring.Storage.Abstract.{
  Ring, View, Bounded, put_items, take_items, append_item, first_item, storage_view,
}

abbrev straight : Storage ℕ
straight = record { capacity = 3; buffer = 7 ∷ 8 ∷ 0 ∷ []; head = 0; tail = 2; size = 2 }

abbrev wrapped : Storage ℕ
wrapped = record { capacity = 3; buffer = 8 ∷ 5 ∷ 7 ∷ []; head = 2; tail = 1; size = 2 }

same_items : items straight ≡ items wrapped
same_items = refl

same_put : put_items 9 straight ≡ some (7 ∷ 8 ∷ 9 ∷ [])
unfolding put
same_put = refl

wrapped_put : put_items 9 wrapped ≡ some (7 ∷ 8 ∷ 9 ∷ [])
unfolding put
wrapped_put = refl

wrapped_take : take_items (λ x. 0) wrapped ≡ some (7, 8 ∷ [])
unfolding take
wrapped_take = refl

storage_view_example :
    let c = (create {A = ℕ} 0 3).capacity in
    (e : View ℕ c ≃ Bounded ℕ c) × ((s : Ring ℕ c) → (e.0 (Quot.mk s)).0 ≡ items s.0)
    × ((x : ℕ) (s : Ring ℕ c) → put_items x s.0 ≡ append_item c x (e.0 (Quot.mk s)).0)
    × ((moved : ℕ → ℕ) (s : Ring ℕ c) → take_items moved s.0 ≡ first_item (e.0 (Quot.mk s)).0)
storage_view_example = storage_view ℕ_set 0 3 (omega arith)
