-- ===== src/Deque/RoundTrip.antt =====
-- A producer that pushes a list and closes the queue, and a consumer that pops until it is told
-- that no item will come.
use yutil.Common.{
  ℕ, zero, suc, ◌+◌, ◌<◌, ◌≡◌, sym, ◌∙◌, ap, Bool, true, false, Option, none, some, List, [], ◌∷◌,
  ◌++◌, append_assoc, append-nil, length, length-append, arith,
}
use yutil.Fifo.{Fifo, add_item, Wait, block, finish, Legal, push}
use yutil.Deque.Ops.{Ops, IsFifo, WaitLegal}
use yutil.Deque.Class.{Class, State, view, ops}
use yutil.Deque.Laws.{ops-IsFifo}

module _ {ℓ} {A S : Type ℓ} where
  abbrev after_wait : (S → Option (List A × S)) → Wait A S → Option (List A × S)
  after_wait again (block s) = none
  after_wait again (finish none s) = some ([], s)
  after_wait again (finish (some x) s) = add_item x (again s)

module _ {ℓ} {A S : Type ℓ} (o : Ops A S) where
  unfoldable pub push_all : List A → S → S
  push_all [] s = s
  push_all (x ∷ xs) s = push_all xs (o.emplace x s).next

  -- `while (queue.wait_pop(v))` on fuel, with the items that it has popped. `none`: it sleeps, or
  -- the fuel is too little.
  unfoldable pub pop_loop : ℕ → S → Option (List A × S)
  pop_loop zero s = none
  pop_loop (suc fuel) s = after_wait (pop_loop fuel) (o.wait_pop s)

module _ {A S : Type 0} (v : S → Fifo A) (o : Ops A S) (laws : IsFifo v o) where
  push-view :
      (x : A) (s : S) (accepted : Bool) (t : S)
      → (v s).closed ≡ false
      → Legal (push x accepted) (v s) (v t)
      → v t ≡ record { items = (v s).items ++ (x ∷ []); closed = false }
  push-view x s true t h l = l.1
  push-view x s false t h l = cc

  push_all-view :
      (xs : List A) (s : S)
      → (v s).closed ≡ false
      → v (push_all o xs s) ≡ record { items = (v s).items ++ xs; closed = false }
  unfolding push_all
  push_all-view [] s h = ground (arith, append-nil (v s).items)
  push_all-view (x ∷ xs) s h =
      let p = o.emplace x s in
      let e = push-view x s p.accepted p.next h (laws.emplace_lem x s) in
      push_all-view xs p.next (ap (λ f. f.closed) e)
      ∙ ground (arith, e, append_assoc (v s).items (x ∷ []) xs)

  -- The loop hands out the items of a closed queue and ends.
  abbrev Ends : S → Option (List A × S) → Type 0
  Ends s r =
      (end : S) × (r ≡ some ((v s).items, end)) × (v end ≡ record { items = []; closed = true })

  wait-Ends :
      (again : S → Option (List A × S)) (fuel : ℕ) (s : S) (w : Wait A S)
      → (v s).closed ≡ true
      → length (v s).items < suc fuel
      → WaitLegal v (v s) w
      → ((t : S) → (v t).closed ≡ true → length (v t).items < fuel → Ends t (again t))
      → Ends s (after_wait again w)
  wait-Ends again fuel s (block t) c l w ih = cc
  wait-Ends again fuel s (finish none t) c l w ih = (t, ground (arith, w), ground (arith, w))
  wait-Ends again fuel s (finish (some x) t) c l w ih =
      let (end, e, f) = ih t (ground (arith, w)) (ground (arith, w)) in
      (end, ap (add_item x) e ∙ sym (ap (λ f. some (f.items, end)) w), f)

  pop_loop-Ends :
      (fuel : ℕ) (s : S)
      → (v s).closed ≡ true
      → length (v s).items < fuel
      → Ends s (pop_loop o fuel s)
  unfolding pop_loop
  pop_loop-Ends zero s c l = absurd (omega arith)
  pop_loop-Ends (suc fuel) s c l =
      wait-Ends (pop_loop o fuel) fuel s (o.wait_pop s) c l (laws.wait_pop_lem s)
        (λ t. pop_loop-Ends fuel t)

module _ {A : Type 0} (c : Class) (s : State c A) (xs : List A) (fuel : ℕ) where
  -- In each class, a producer that pushes a list to an open queue and closes it, and then a consumer
  -- that calls `wait_pop` until it returns false: the consumer never sleeps, it gets the items that
  -- were in the queue followed by the list, in this order, and leaves the queue empty and closed.
  -- A call for each item and one more are enough.
  pub pushed_are_popped :
      (view c s).closed ≡ false
      → length (view c s).items + length xs < fuel
      → (end : State c A) × (pop_loop (ops c) fuel ((ops c).close (push_all (ops c) xs s))
          ≡ some ((view c s).items ++ xs, end))
        × (view c end ≡ record { items = []; closed = true })
  pushed_are_popped h l =
      let t = push_all (ops c) xs s in
      let p = push_all-view (view c) (ops c) (ops-IsFifo c) xs s h in
      let d : view c ((ops c).close t) ≡ record { items = (view c s).items ++ xs; closed = true } =
        (ops-IsFifo c).close_lem t ∙ ap (λ f. record { items = f.items; closed = true }) p in
      let (end, e, f) =
        pop_loop-Ends (view c) (ops c) (ops-IsFifo c) fuel ((ops c).close t) (ap (λ f. f.closed) d)
          (ground (arith, d, length-append (view c s).items xs)) in
      (end, e ∙ ap (λ f. some (f.items, end)) d, f)
