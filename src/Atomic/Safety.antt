-- ===== src/Atomic/Safety.antt =====
-- Every state that threads reach on `BoundedAtomicMpmcQueueV1` is one of the protocol.
use yutil.Common.{
  inl, inr, ℕ, zero, suc, ◌+◌, ◌%◌, ◌^◌, ◌<◌, ◌≤◌, ◌≡◌, false, Option, none, some, List, [], ◌∷◌,
  length, get_elem?, arith, sym, ap, ◌∙◌, refl,
}
use mathlib.Core.Path.{subst}
use native.Mathlib.Nat.{mod-eq_of_lt}
use yutil.Capacity.{two-le-pow}
use yutil.Atomic.Cells.{Place, Turn, numbered}
use yutil.Atomic.V1
use yutil.Atomic.Class.{Class}
use yutil.Atomic.System.{System, Event, start, step, run, take_turn, after, begin, after_close}
use yutil.Atomic.Protocol.{Board, key, CellFits, Fits, IsBusy, cell, Inv, Move}
use yutil.Atomic.Protocol.Moves.{Move-Inv}
use yutil.Atomic.Protocol.Tickets.{Tickets-same}
use yutil.Atomic.Protocol.Ledger.{Ledger, Move-Ledger}
use yutil.Atomic.Refine.{Matches, IsMove}
use yutil.Atomic.Refine.Turns.{take_turn-IsMove}

pub length-numbered : (A : Type 0) (i n : ℕ) → length (numbered {A = A} i n) ≡ n
unfolding numbered
length-numbered A i zero = refl
length-numbered A i (suc n) = ap suc (length-numbered A (suc i) n)

module _ {A : Type 0} where
  pub get_elem?-numbered :
      (i n j : ℕ)
      → j < n
      → get_elem? (numbered {A = A} i n) j ≡ some (record { sequence = i + j; storage = none })
  unfolding numbered
  get_elem?-numbered i zero j h = absurd (omega arith)
  get_elem?-numbered i (suc n) zero h =
      ap (λ s. some (record { sequence = s; storage = none })) (omega arith)
  get_elem?-numbered i (suc n) (suc j) h =
      get_elem?-numbered (suc i) n j (omega arith)
      ∙ ap (λ s. some (record { sequence = s; storage = none })) (omega arith)

module _ {A : Type 0} (moved : A → A) (k : ℕ) where
  -- A state of the protocol, at most `claims` of whose positions have been claimed by pushes.
  pub record Safe (claims : ℕ) (s : System A) : Type 0 where
    pub board : Board A
    pub inv : Inv (2 ^ k) board s.places
    pub matches : Matches k board s.queue
    pub ledger : Ledger board s.places s.log
    pub sound : s.crashed ≡ false
    pub claimed : board.enq ≤ claims

  after-Safe :
      (claims : ℕ) (s : System A) (i : ℕ) (o : Option (Turn A)) (h : Safe claims s)
      → IsMove k h.board (s.places i) o
      → Safe (claims + 1) (after s i o)
  after-Safe claims s i none h e = absurd e
  after-Safe claims s i (some t) h (b, mv, m, l) = record {
    board = b;
    inv = Move-Inv i h.inv refl mv;
    matches = m;
    ledger = Move-Ledger h.inv h.ledger i refl mv;
    sound = h.sound;
    claimed = omega (arith, l, h.claimed);
  }

  begin-Safe :
      (claims : ℕ) (s : System A) (i : ℕ) (p p0 : Place A) (h : Safe claims s)
      → s.places i ≡ p0
      → key (2 ^ k) p ≡ none
      → Fits (2 ^ k) h.board p
      → Safe (claims + 1) (begin s i p p0)
  begin-Safe claims s i p Place.idle h e n f = record {
    board = h.board;
    inv = Move-Inv i h.inv e (Move.quiet {r = none} refl n tt f);
    matches = h.matches;
    ledger = Move-Ledger h.inv h.ledger i e (Move.quiet {r = none} refl n tt f);
    sound = h.sound;
    claimed = omega (arith, h.claimed);
  }
  begin-Safe claims s i p p0 h e n f = record {
    board = h.board;
    inv = h.inv;
    matches = h.matches;
    ledger = h.ledger;
    sound = h.sound;
    claimed = omega (arith, h.claimed);
  }

  close-Safe :
      (claims : ℕ) (s : System A) (p : Place A)
      → Safe claims s
      → Safe (claims + 1) (after_close s p (V1.close s.queue))
  unfolding V1.close
  close-Safe claims s Place.idle h = record {
    board = h.board;
    inv = h.inv;
    matches = record {
      capacity = h.matches.capacity;
      mask = h.matches.mask;
      cells = h.matches.cells;
      enq = h.matches.enq;
      deq = h.matches.deq;
      at = h.matches.at;
    };
    ledger = record {
      pushes = Tickets-same h.ledger.pushes (λ j. refl) (λ p. omega arith);
      pops = Tickets-same h.ledger.pops (λ j. refl) (λ p. omega arith);
      recorded = (tt, h.ledger.recorded);
    };
    sound = h.sound;
    claimed = omega (arith, h.claimed);
  }
  close-Safe claims s p h = record {
    board = h.board;
    inv = h.inv;
    matches = h.matches;
    ledger = h.ledger;
    sound = h.sound;
    claimed = omega (arith, h.claimed);
  }

  pub step-Safe :
      (claims : ℕ) (e : Event A) (s : System A)
      → claims + 2 ^ k < 2 ^ 63
      → Safe claims s
      → Safe (claims + 1) (step Class.v1 moved e s)
  unfolding step
  step-Safe claims (Event.call_push i x) s l h =
      begin-Safe claims s i (Place.push_called x) (s.places i) h refl refl tt
  step-Safe claims (Event.call_pop i) s l h =
      begin-Safe claims s i Place.pop_called (s.places i) h refl refl tt
  step-Safe claims (Event.go i fails) s l h =
      after-Safe claims s i (take_turn Class.v1 moved fails s.queue (s.places i)) h (
        take_turn-IsMove moved k h.inv h.matches (omega (arith, h.claimed, l)) fails (s.places i)
          (h.inv.fits i))
  step-Safe claims (Event.call_close i) s l h = close-Safe claims s (s.places i) h

  pub run-Safe :
      (claims : ℕ) (es : List (Event A)) (s : System A)
      → claims + length es + 2 ^ k < 2 ^ 63
      → Safe claims s
      → Safe (claims + length es) (run Class.v1 moved es s)
  unfolding run
  run-Safe claims [] s l h = subst (λ n. Safe n s) {x = claims} (omega arith) h
  run-Safe claims (e ∷ es) s l h =
      subst (λ n. Safe n (run Class.v1 moved es (step Class.v1 moved e s)))
        {x = claims + 1 + length es} (omega arith)
        (run-Safe (claims + 1) es (step Class.v1 moved e s) (omega arith)
          (step-Safe claims e s (omega arith) h))

  -- The queue that the constructor makes.
  new_board : Board A
  new_board = record {
    enq = 0;
    deq = 0;
    at = λ p. get_elem? (numbered 0 (2 ^ k)) (p % 2 ^ k);
    pushes = [];
  }

  new-at : (p : ℕ) → p < 2 ^ k → new_board.at p ≡ cell (2 ^ k) p none
  unfolding new_board
  new-at p h =
      ap (get_elem? (numbered 0 (2 ^ k))) (mod-eq_of_lt {n = p} h)
      ∙ get_elem?-numbered 0 (2 ^ k) p h
      ∙ ap (λ j. cell (2 ^ k) j none) {x = 0 + p} (omega arith)

  new-idle : 1 ≤ k → (p : ℕ) → p < 2 ^ k → IsBusy (2 ^ k) new_board p (new_board.at p) → ⊥
  unfolding new_board
  new-idle l p h b =
      let two = two-le-pow k l in
      let u = subst (IsBusy (2 ^ k) new_board p) (new-at p h) b in ground (arith, u)

  pub start-Safe : 1 ≤ k → Safe 0 (start Class.v1 (2 ^ k))
  unfolding V1.create new_board
  start-Safe l = record {
    board = new_board;
    inv = record {
      two = two-le-pow k l;
      count = refl;
      order = omega arith;
      room = omega arith;
      cells = λ p lo hi.
          subst (CellFits (2 ^ k) new_board p) (sym (new-at p (omega arith)))
            (inr (inr (inl (omega arith, refl, refl))));
      fits = λ i. tt;
      apart = λ i j a e f. cc;
      held = λ p lo hi b. absurd (new-idle l p (omega arith) b);
    };
    matches = record {
      capacity = refl;
      mask = refl;
      cells = length-numbered A 0 (2 ^ k);
      enq = refl;
      deq = refl;
      at = λ p. refl;
    };
    ledger = record {
      pushes = record {
        below = λ p l. absurd (omega arith);
        above = λ p l. refl;
        apart = λ i j p e f. cc;
        within = λ i p e. cc;
      };
      pops = record {
        below = λ p l. absurd (omega arith);
        above = λ p l. refl;
        apart = λ i j p e f. cc;
        within = λ i p e. cc;
      };
      recorded = tt;
    };
    sound = refl;
    claimed = omega arith;
  }
