-- ===== src/Fifo/Bounded.antt =====
-- The contract of the bounded queues: the FIFO queue of `Fifo`, which holds at most `cap` items.
use yutil.Common.{
  ℕ, ◌<◌, ◌≤◌, ◌≡◌, ◌⊎◌, Bool, true, false, Option, none, some, List, [], ◌∷◌, ◌++◌, append_assoc,
  length, length-snoc, arith,
}
use yutil.Fifo.{Fifo, empty_fifo}

-- A call that has returned, with its result, as in `Fifo`; `try_push` does not wait.
pub data Call {ℓ} (A : Type ℓ) : Type ℓ where
  push : A → Bool → Call A
  try_push : A → Bool → Call A
  wait_pop : Option A → Call A
  try_pop : Option A → Call A
  close : Call A

module _ {ℓ} {A : Type ℓ} where
  -- The item goes to the end of an open queue that has room.
  abbrev pub Appends : ℕ → A → Fifo A → Fifo A → Type ℓ
  Appends cap x f g =
      (f.closed ≡ false)
      × (length f.items < cap)
      × (g ≡ record { items = f.items ++ (x ∷ []); closed = false })

  abbrev pub Takes : A → Fifo A → Fifo A → Type ℓ
  Takes x f g = f ≡ record { items = x ∷ g.items; closed = g.closed }

  -- The results and the new contents that the contract allows.
  abbrev pub Legal : ℕ → Call A → Fifo A → Fifo A → Type ℓ
  Legal cap (push x true) f g = Appends cap x f g
  Legal cap (push x false) f g = (f.closed ≡ true) × (g ≡ f)
  Legal cap (try_push x true) f g = Appends cap x f g
  Legal cap (try_push x false) f g = ((f.closed ≡ true) ⊎ (length f.items ≡ cap)) × (g ≡ f)
  Legal cap (wait_pop none) f g = (f.items ≡ []) × (f.closed ≡ true) × (g ≡ f)
  Legal cap (wait_pop (some x)) f g = Takes x f g
  Legal cap (try_pop none) f g = (f.items ≡ []) × (g ≡ f)
  Legal cap (try_pop (some x)) f g = Takes x f g
  Legal cap close f g = g ≡ record { items = f.items; closed = true }

  -- The calls of a history, newest first, lead from the empty queue to the given one.
  abbrev pub Explained : ℕ → List (Call A) → Fifo A → Type ℓ
  Explained cap [] f = f ≡ empty_fifo
  Explained cap (c ∷ cs) g = (f : Fifo A) × Explained cap cs f × Legal cap c f g

  -- The values that were accepted and those that were handed out, oldest first.
  abbrev pub accepted : List (Call A) → List A
  accepted [] = []
  accepted (push x true ∷ cs) = accepted cs ++ (x ∷ [])
  accepted (try_push x true ∷ cs) = accepted cs ++ (x ∷ [])
  accepted (_ ∷ cs) = accepted cs

  abbrev pub delivered : List (Call A) → List A
  delivered [] = []
  delivered (wait_pop (some x) ∷ cs) = delivered cs ++ (x ∷ [])
  delivered (try_pop (some x) ∷ cs) = delivered cs ++ (x ∷ [])
  delivered (_ ∷ cs) = delivered cs

  -- What a history that the contract explains has done.
  abbrev IsOrdered : ℕ → List (Call A) → Fifo A → Type ℓ
  IsOrdered cap cs f = (accepted cs ≡ delivered cs ++ f.items) × (length f.items ≤ cap)

  append-IsOrdered :
      (cap : ℕ) (x : A) (cs : List (Call A)) (e f : Fifo A)
      → IsOrdered cap cs e
      → Appends cap x e f
      → (accepted cs ++ (x ∷ []) ≡ delivered cs ++ f.items) × (length f.items ≤ cap)
  append-IsOrdered cap x cs e f o l =
      ground (arith, append_assoc (delivered cs) e.items (x ∷ []), length-snoc e.items x)

  take-IsOrdered :
      (cap : ℕ) (x : A) (cs : List (Call A)) (e f : Fifo A)
      → IsOrdered cap cs e
      → Takes x e f
      → (accepted cs ≡ (delivered cs ++ (x ∷ [])) ++ f.items) × (length f.items ≤ cap)
  take-IsOrdered cap x cs e f o l = ground (arith, append_assoc (delivered cs) (x ∷ []) f.items)

  -- Values come out in the order in which they went in, and at most `cap` are inside.
  pub Explained-IsOrdered :
      (cap : ℕ) (cs : List (Call A)) (f : Fifo A)
      → Explained cap cs f
      → (accepted cs ≡ delivered cs ++ f.items) × (length f.items ≤ cap)
  Explained-IsOrdered cap [] f h = ground arith
  Explained-IsOrdered cap (push x true ∷ cs) f (e, h, l) =
      append-IsOrdered cap x cs e f (Explained-IsOrdered cap cs e h) l
  Explained-IsOrdered cap (push x false ∷ cs) f (e, h, l) =
      ground (arith, Explained-IsOrdered cap cs e h)
  Explained-IsOrdered cap (try_push x true ∷ cs) f (e, h, l) =
      append-IsOrdered cap x cs e f (Explained-IsOrdered cap cs e h) l
  Explained-IsOrdered cap (try_push x false ∷ cs) f (e, h, l) =
      rw l.1 (Explained-IsOrdered cap cs e h)
  Explained-IsOrdered cap (wait_pop none ∷ cs) f (e, h, l) =
      ground (arith, Explained-IsOrdered cap cs e h)
  Explained-IsOrdered cap (wait_pop (some x) ∷ cs) f (e, h, l) =
      take-IsOrdered cap x cs e f (Explained-IsOrdered cap cs e h) l
  Explained-IsOrdered cap (try_pop none ∷ cs) f (e, h, l) =
      ground (arith, Explained-IsOrdered cap cs e h)
  Explained-IsOrdered cap (try_pop (some x) ∷ cs) f (e, h, l) =
      take-IsOrdered cap x cs e f (Explained-IsOrdered cap cs e h) l
  Explained-IsOrdered cap (close ∷ cs) f (e, h, l) = ground (arith, Explained-IsOrdered cap cs e h)
