-- ===== src/Fifo/Order.antt =====
-- What the contract implies for a whole history.
use yutil.Common.{◌≡◌, sym, true, false, none, some, List, [], ◌∷◌, ◌++◌, append_assoc, arith}
use yutil.Fifo.{Fifo, Call, push, wait_pop, try_pop, close, Explained, accepted, delivered}

module _ {ℓ} {A : Type ℓ} where
  regroup : (xs ys : List A) (x : A) → xs ++ (x ∷ ys) ≡ (xs ++ (x ∷ [])) ++ ys
  regroup xs ys x = sym (append_assoc xs (x ∷ []) ys)

  -- A history that the contract explains hands the values out in the order in which they were
  -- accepted, and what is left is in the queue.
  pub accepted-split :
      (cs : List (Call A)) (f : Fifo A) → Explained cs f → accepted cs ≡ delivered cs ++ f.items
  accepted-split [] f h = ground arith
  accepted-split (push x true ∷ cs) f (e, h, l) =
      ground (arith, accepted-split cs e h, append_assoc (delivered cs) e.items (x ∷ []))
  accepted-split (push x false ∷ cs) f (e, h, l) = ground (arith, accepted-split cs e h)
  accepted-split (wait_pop none ∷ cs) f (e, h, l) = ground (arith, accepted-split cs e h)
  accepted-split (wait_pop (some x) ∷ cs) f (e, h, l) =
      ground (arith, accepted-split cs e h, regroup (delivered cs) f.items x)
  accepted-split (try_pop none ∷ cs) f (e, h, l) = ground (arith, accepted-split cs e h)
  accepted-split (try_pop (some x) ∷ cs) f (e, h, l) =
      ground (arith, accepted-split cs e h, regroup (delivered cs) f.items x)
  accepted-split (close ∷ cs) f (e, h, l) = ground (arith, accepted-split cs e h)
