-- ===== src/Atomic/Protocol/Ledger.antt =====
-- What the calls have returned, beside the positions.
use yutil.Common.{
  ℕ, ◌==◌, ◌<◌, ◌≤◌, ◌≡◌, ◌≢◌, if◌then◌else◌, refl, sym, ap, ◌∙◌, Option, none, some, List, [], ◌∷◌,
  get_elem?, arith, get_elem?-snoc_ne,
}
use mathlib.Core.Path.{subst}
use yutil.Atomic.Cells.{Place, Reply}
use yutil.Atomic.System.{update, record_reply}
use yutil.Atomic.Frame.{count, count_reply, count-record_reply}
use yutil.Atomic.Protocol.{
  Board, key, filling, emptying, IsSilent, Inv, Move, pushed, popped, rewritten, Fits,
}
use yutil.Atomic.Protocol.Tickets.{Tickets, Tickets-same, Tickets-claim, Tickets-settle}

module _ {A : Type 0} where
  abbrev pub pushed_at : ℕ → Reply A → ℕ
  pushed_at p (Reply.pushed pos x) = if pos == p then 1 else 0
  pushed_at p _ = 0

  abbrev pub popped_at : ℕ → Reply A → ℕ
  popped_at p (Reply.popped pos v) = if pos == p then 1 else 0
  popped_at p _ = 0

  -- A reply to a push or a pop names a claimed position and its value.
  abbrev pub Recorded : (enq deq : ℕ) → List A → Reply A → Type 0
  Recorded enq deq pushes (Reply.pushed pos x) = (pos < enq) × (get_elem? pushes pos ≡ some x)
  Recorded enq deq pushes (Reply.popped pos v) = (pos < deq) × (get_elem? pushes pos ≡ some v)
  Recorded enq deq pushes _ = Unit

  abbrev pub AllRecorded : (enq deq : ℕ) → List A → List (Reply A) → Type 0
  AllRecorded enq deq pushes [] = Unit
  AllRecorded enq deq pushes (r ∷ rs) = Recorded enq deq pushes r × AllRecorded enq deq pushes rs

  -- Every accepted position is settled once, or in the hands of one thread.
  pub record Ledger (b : Board A) (places : ℕ → Place A) (log : List (Reply A)) : Type 0 where
    pub pushes : Tickets b.enq (λ j. filling (places j)) (λ p. count (pushed_at p) log)
    pub pops : Tickets b.deq (λ j. emptying (places j)) (λ p. count (popped_at p) log)
    pub recorded : AllRecorded b.enq b.deq b.pushes log

  Recorded-mono :
      (b b' : Board A)
      → b.enq ≤ b'.enq
      → b.deq ≤ b'.deq
      → b.deq ≤ b.enq
      → ((p : ℕ) → p < b.enq → get_elem? b'.pushes p ≡ get_elem? b.pushes p)
      → (log : List (Reply A)) → AllRecorded b.enq b.deq b.pushes log
      → AllRecorded b'.enq b'.deq b'.pushes log
  Recorded-mono b b' e d o h [] r = tt
  Recorded-mono b b' e d o h (Reply.pushed pos x ∷ log) r =
      ((omega (arith, r.0.0), h pos r.0.0 ∙ r.0.1), Recorded-mono b b' e d o h log r.1)
  Recorded-mono b b' e d o h (Reply.popped pos v ∷ log) r = (
    (omega (arith, r.0.0), h pos (omega (arith, r.0.0)) ∙ r.0.1),
    Recorded-mono b b' e d o h log r.1,
  )
  Recorded-mono b b' e d o h (s ∷ log) r = (tt, Recorded-mono b b' e d o h log r.1)

  pub key-none : (c : ℕ) (p : Place A) → key c p ≡ none → (filling p ≡ none) × (emptying p ≡ none)
  key-none c (Place.construct x pos) h = cc
  key-none c (Place.push_publish x pos) h = cc
  key-none c (Place.read pos) h = cc
  key-none c (Place.destroy pos v) h = cc
  key-none c (Place.pop_publish pos v) h = cc
  key-none c p h = (refl, refl)

  silent :
      (p : ℕ) (r : Option (Reply A))
      → IsSilent r
      → (count_reply (pushed_at p) r ≡ 0) × (count_reply (popped_at p) r ≡ 0)
  silent p none h = (refl, refl)
  silent p (some (Reply.pushed pos x)) h = absurd h
  silent p (some (Reply.popped pos x)) h = absurd h
  silent p (some r) h = (refl, refl)

  module _ (f : Place A → Option ℕ) (places : ℕ → Place A) (i : ℕ) (p : Place A) where
    update_self : f (update places i p i) ≡ f p
    update_self = ground arith

    update-ne : (j : ℕ) → j ≢ i → f (update places i p j) ≡ f (places j)
    update-ne j n = ground arith

    update-same : f p ≡ f (places i) → (j : ℕ) → f (update places i p j) ≡ f (places j)
    update-same e j = ground arith

module _ {A : Type 0} {c : ℕ} {b : Board A} {places : ℕ → Place A} {log : List (Reply A)}
    (inv : Inv c b places) (l : Ledger b places log) (i : ℕ) where
  counted :
      (f : Reply A → ℕ) (r : Option (Reply A))
      → count_reply f r ≡ 0
      → count f (record_reply r log) ≡ count f log
  counted f r z = omega (arith, count-record_reply f r log, z)

  record_silent :
      (r : Option (Reply A)) → IsSilent r → AllRecorded b.enq b.deq b.pushes (record_reply r log)
  record_silent none s = l.recorded
  record_silent (some (Reply.pushed pos x)) s = absurd s
  record_silent (some (Reply.popped pos x)) s = absurd s
  record_silent (some r) s = (tt, l.recorded)

  pub Move-Ledger :
      {b' : Board A} {p p' : Place A} {r : Option (Reply A)}
      → places i ≡ p
      → Move c b p b' p' r
      → Ledger b' (update places i p') (record_reply r log)
  Move-Ledger {p = p} {p' = p'} {r = r} e (Move.quiet k k' s f) =
      let (f', m') = key-none c p' k' in
      let (f0, m0) = key-none c (places i) (ap (key c) e ∙ k) in
      record {
        pushes =
            Tickets-same l.pushes (update-same filling places i p' (f' ∙ sym f0))
              (λ q. counted (pushed_at q) r (silent q r s).0);
        pops =
            Tickets-same l.pops (update-same emptying places i p' (m' ∙ sym m0))
              (λ q. counted (popped_at q) r (silent q r s).1);
        recorded = record_silent r s;
      }
  Move-Ledger e (Move.claim_push x pos spins n) = record {
    pushes =
        Tickets-claim l.pushes i (update-ne filling places i (Place.construct x pos)) (ap filling e)
          (update_self filling places i (Place.construct x pos) ∙ ap some n) (λ q. refl);
    pops =
        Tickets-same l.pops
          (update-same emptying places i (Place.construct x pos) (sym (ap emptying e))) (λ q. refl);
    recorded =
        Recorded-mono b (pushed b x) (omega arith) (omega arith) inv.order
          (λ q h. get_elem?-snoc_ne b.pushes x q (omega (arith, inv.count))) log l.recorded;
  }
  Move-Ledger e (Move.claim_pop pos spins n round) = record {
    pushes =
        Tickets-same l.pushes (update-same filling places i (Place.read pos) (sym (ap filling e)))
          (λ q. refl);
    pops =
        Tickets-claim l.pops i (update-ne emptying places i (Place.read pos)) (ap emptying e)
          (update_self emptying places i (Place.read pos) ∙ ap some n) (λ q. refl);
    recorded =
        Recorded-mono b (popped b) (omega arith) (omega arith) inv.order (λ q h. refl) log
          l.recorded;
  }
  Move-Ledger {p = p} {p' = p'} e (Move.work a at' k k' fl em w busy f) = record {
    pushes =
        Tickets-same l.pushes (update-same filling places i p' (fl ∙ sym (ap filling e)))
          (λ q. refl);
    pops =
        Tickets-same l.pops (update-same emptying places i p' (em ∙ sym (ap emptying e)))
          (λ q. refl);
    recorded =
        Recorded-mono b (rewritten b at') (omega arith) (omega arith) inv.order (λ q h. refl) log
          l.recorded;
  }
  Move-Ledger e (Move.end_push x pos at' w busy) =
      let f : Fits c b (Place.push_publish x pos) = subst (Fits c b) e (inv.fits i) in
      record {
        pushes =
            Tickets-settle l.pushes i (update-ne filling places i Place.idle) pos (ap filling e)
              (update_self filling places i Place.idle) (ground arith) (λ q n. ground arith);
        pops =
            Tickets-same l.pops (update-same emptying places i Place.idle (sym (ap emptying e)))
              (λ q. omega arith);
        recorded = (
          (f.0, f.3),
          Recorded-mono b (rewritten b at') (omega arith) (omega arith) inv.order (λ q h. refl) log
              l.recorded,
        );
      }
  Move-Ledger e (Move.end_pop v pos at' w busy) =
      let f : Fits c b (Place.pop_publish pos v) = subst (Fits c b) e (inv.fits i) in
      record {
        pushes =
            Tickets-same l.pushes (update-same filling places i Place.idle (sym (ap filling e)))
              (λ q. omega arith);
        pops =
            Tickets-settle l.pops i (update-ne emptying places i Place.idle) pos (ap emptying e)
              (update_self emptying places i Place.idle) (ground arith) (λ q n. ground arith);
        recorded = (
          (f.0, f.2),
          Recorded-mono b (rewritten b at') (omega arith) (omega arith) inv.order (λ q h. refl) log
              l.recorded,
        );
      }
