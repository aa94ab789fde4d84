-- ===== src/Ring/RoundTrip.antt =====
-- A producer that pushes a list and closes the ring, and a consumer that pops until it is told that
-- no item will come.
use yutil.Common.{
  ℕ, zero, suc, ◌+◌, ◌<◌, ◌≤◌, ◌≡◌, sym, ◌∙◌, ap, true, false, Option, none, some, List, [], ◌∷◌,
  ◌++◌, append_assoc, append-nil, length, length-snoc, word, arith,
}
use yutil.Fifo.{Fifo, add_item}
use yutil.Fifo.Bounded.{push, wait_pop}
use yutil.Ring.Ops.{
  Ops, Section, fault, block, done, Reply, accepted, refused, PushLegal, PopLegal, IsBounded,
}
use yutil.Ring.Class.{Class, State, view, ops, Valid, capacity_of}
use yutil.Ring.Laws.{ops-IsBounded}

module _ {ℓ} {A S : Type ℓ} where
  abbrev after_push : (S → Option (List A × S)) → Section (Reply {ℓ}) S → Option (List A × S)
  after_push again (done accepted held after s) = again s
  after_push again section = none

  abbrev after_pop : (S → Option (List A × S)) → Section (Option A) S → Option (List A × S)
  after_pop again (done none held after s) = some ([], s)
  after_pop again (done (some x) held after s) = add_item x (again s)
  after_pop again section = none

module _ {ℓ} {A S : Type ℓ} (o : Ops A S) where
  -- `while (queue.wait_pop(v))` on fuel, with the items that it has popped. `none`: it sleeps, or
  -- the fuel is too little.
  unfoldable pub pop_loop : ℕ → S → Option (List A × S)
  pop_loop zero s = none
  pop_loop (suc fuel) s = after_pop (pop_loop fuel) (o.wait_pop s)

  -- A push of each item, then `close`, then that loop. `none` also if a push sleeps or is refused.
  unfoldable pub push_close_pop : (fuel : ℕ) → List A → S → Option (List A × S)
  push_close_pop fuel [] s = pop_loop fuel (o.close s).1
  push_close_pop fuel (x ∷ xs) s = after_push (push_close_pop fuel xs) (o.emplace x s)

module _ {A S : Type 0} (cap : ℕ) (V : S → Type 0) (v : S → Fifo A) (o : Ops A S)
    (laws : IsBounded cap V v o) where
  -- The items that come out, and what is left.
  abbrev Ends : List A → Option (List A × S) → Type 0
  Ends xs r = (end : S) × (r ≡ some (xs, end)) × (v end ≡ record { items = []; closed = true })

  pop-Ends :
      (again : S → Option (List A × S)) (fuel : ℕ) (f : Fifo A) (w : Section (Option A) S)
      → f.closed ≡ true
      → length f.items < suc fuel
      → PopLegal cap V v f wait_pop w
      → ((t : S)
          → V t
          → (v t).closed ≡ true
          → length (v t).items < fuel
          → Ends (v t).items (again t))
      → Ends f.items (after_pop again w)
  pop-Ends again fuel f fault c l w ih = absurd w.1
  pop-Ends again fuel f (block t) c l w ih = cc
  pop-Ends again fuel f (done none held after t) c l w ih =
      (t, ground (arith, w), ground (arith, w))
  pop-Ends again fuel f (done (some x) held after t) c l (h, w) ih =
      let (end, e, f) = ih t h (ground (arith, w)) (ground (arith, w)) in
      (end, ap (add_item x) e ∙ sym (ap (λ f. some (f.items, end)) w), f)

  pop_loop-Ends :
      (fuel : ℕ) (s : S)
      → V s
      → (v s).closed ≡ true
      → length (v s).items < fuel
      → Ends (v s).items (pop_loop o fuel s)
  unfolding pop_loop
  pop_loop-Ends zero s h c l = absurd (omega arith)
  pop_loop-Ends (suc fuel) s h c l =
      pop-Ends (pop_loop o fuel) fuel (v s) (o.wait_pop s) c l (laws.wait_pop_lem s h)
        (λ t. pop_loop-Ends fuel t)

  push-Ends :
      (again : S → Option (List A × S)) (x : A) (xs : List A) (f : Fifo A) (w : Section Reply S)
      → f.closed ≡ false
      → length f.items < cap
      → PushLegal cap V v f (push x) w
      → ((t : S)
          → V t
          → v t ≡ record { items = f.items ++ (x ∷ []); closed = false }
          → Ends ((v t).items ++ xs) (again t))
      → Ends (f.items ++ (x ∷ xs)) (after_push again w)
  push-Ends again x xs f fault c l w ih = absurd w.1
  push-Ends again x xs f (block t) c l w ih = absurd (omega (arith, w))
  push-Ends again x xs f (done accepted held after t) c l (h, (a, b, w)) ih =
      let (end, e, g) = ih t h w in
      (
        end,
        e
            ∙ ap (λ ys. some (ys, end))
                (ap (λ f. f.items ++ xs) w ∙ append_assoc f.items (x ∷ []) xs),
        g,
      )
  push-Ends again x xs f (done refused held after t) c l w ih = cc

  push_close_pop-Ends :
      (fuel : ℕ) (xs : List A) (s : S)
      → V s
      → (v s).closed ≡ false
      → length (v s).items + length xs ≤ cap
      → length (v s).items + length xs < fuel
      → Ends ((v s).items ++ xs) (push_close_pop o fuel xs s)
  unfolding push_close_pop
  push_close_pop-Ends fuel [] s h c b l =
      let (h', d) = laws.close_lem s h in
      let (end, e, g) =
        pop_loop-Ends fuel (o.close s).1 h' (ap (λ f. f.closed) d) (ground (arith, d)) in
      (
        end,
        e
            ∙ ap (λ f. some (f.items, end)) d
            ∙ ap (λ ys. some (ys, end)) (sym (append-nil (v s).items)),
        g,
      )
  push_close_pop-Ends fuel (x ∷ xs) s h c b l =
      push-Ends (push_close_pop o fuel xs) x xs (v s) (o.emplace x s) c (omega (arith, b))
        (laws.emplace_lem x s h)
        (λ t h' e.
          let n : length (v t).items ≡ length (v s).items + 1 =
            ap (λ f. length f.items) e ∙ length-snoc (v s).items x in
          push_close_pop-Ends fuel xs t h' (ap (λ f. f.closed) e) (omega (arith, n, b))
            (omega (arith, n, l)))

module _ {A : Type 0} (moved : A → A) (default : A) (n : ℕ) (small : n < word) (c : Class)
    (s : State c A) (valid : Valid A c n s) (xs : List A) (fuel : ℕ) where
  -- In each class, whatever `default` and `moved` are: a producer that pushes to an open ring a list
  -- for which it has room, and closes it, and then a consumer that calls `wait_pop` until it returns
  -- false. No call sleeps or leaves the vector, and the consumer gets the items that were in the ring
  -- followed by the list, in this order, and leaves the ring empty and closed. A call for each item
  -- and one more are enough.
  pub ring_pushed_are_popped :
      (view c s).closed ≡ false
      → length (view c s).items + length xs ≤ capacity_of n
      → length (view c s).items + length xs < fuel
      → (end : State c A) × (push_close_pop (ops c moved default n) fuel xs s
          ≡ some ((view c s).items ++ xs, end))
        × (view c end ≡ record { items = []; closed = true })
  ring_pushed_are_popped h b l =
      push_close_pop-Ends (capacity_of n) (Valid A c n) (view c) (ops c moved default n)
        (ops-IsBounded moved default n small c) fuel xs s valid h b l
