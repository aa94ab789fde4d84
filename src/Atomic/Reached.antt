-- ===== src/Atomic/Reached.antt =====
-- Every state that threads reach on any of the three classes is one of the protocol.
use yutil.Common.{
  ℕ, ◌+◌, ◌^◌, ◌<◌, ◌≤◌, ◌≡◌, some, List, length, arith, sym, ap, ◌∙◌, refl, some-inj,
}
use mathlib.Core.Path.{subst}
use yutil.Capacity.{normalize_capacity, normalize_total, Normalized}
use yutil.Atomic.Cells.{Place}
use yutil.Atomic.Class.{Class}
use yutil.Atomic.System.{System, Event, start, run}
use yutil.Atomic.Versions.{Same, versions_agree}
use yutil.Atomic.Versions.Turns.{erase}
use yutil.Atomic.Protocol.{Board, key, filling, emptying, Fits}
use yutil.Atomic.Protocol.Tickets.{Tickets-same}
use yutil.Atomic.Protocol.Ledger.{Ledger}
use yutil.Atomic.Refine.{Matches}
use yutil.Atomic.Safety.{Safe, run-Safe, start-Safe}

module _ {A : Type 0} where
  Fits-erase : (c : ℕ) (b : Board A) (p : Place A) → Fits c b (erase p) → Fits c b p
  Fits-erase c b (Place.push_look x pos spins) f = f
  Fits-erase c b (Place.push_claim x pos spins) f = f
  Fits-erase c b (Place.pop_look pos spins) f = f
  Fits-erase c b (Place.pop_claim pos spins) f = f
  Fits-erase c b p f = f

  pub erase-Fits : (c : ℕ) (b : Board A) (p : Place A) → Fits c b p → Fits c b (erase p)
  erase-Fits c b (Place.push_look x pos spins) f = f
  erase-Fits c b (Place.push_claim x pos spins) f = f
  erase-Fits c b (Place.pop_look pos spins) f = f
  erase-Fits c b (Place.pop_claim pos spins) f = f
  erase-Fits c b p f = f

  key-erase : (c : ℕ) (p : Place A) → key c (erase p) ≡ key c p
  key-erase c (Place.push_look x pos spins) = refl
  key-erase c p = refl

  pub filling-erase : (p : Place A) → filling (erase p) ≡ filling p
  filling-erase (Place.push_look x pos spins) = refl
  filling-erase p = refl

  pub emptying-erase : (p : Place A) → emptying (erase p) ≡ emptying p
  emptying-erase (Place.push_look x pos spins) = refl
  emptying-erase p = refl

  module _ (moved : A → A) (k claims : ℕ) {s t : System A} (h : Same s t)
      (safe : Safe moved k claims t) where
    at_key : (i : ℕ) → key (2 ^ k) (t.places i) ≡ key (2 ^ k) (s.places i)
    at_key i = ap (key (2 ^ k)) (h.places i) ∙ key-erase (2 ^ k) (s.places i)

    at_filling : (i : ℕ) → filling (t.places i) ≡ filling (s.places i)
    at_filling i = ap filling (h.places i) ∙ filling-erase (s.places i)

    at_emptying : (i : ℕ) → emptying (t.places i) ≡ emptying (s.places i)
    at_emptying i = ap emptying (h.places i) ∙ emptying-erase (s.places i)

    pub Same-Safe : Safe moved k claims s
    Same-Safe = record {
      board = safe.board;
      inv = record {
        two = safe.inv.two;
        count = safe.inv.count;
        order = safe.inv.order;
        room = safe.inv.room;
        cells = safe.inv.cells;
        fits = λ i.
            Fits-erase (2 ^ k) safe.board (s.places i)
              (subst (Fits (2 ^ k) safe.board) (h.places i) (safe.inv.fits i));
        apart = λ i j a e f. safe.inv.apart i j a (at_key i ∙ e) (at_key j ∙ f);
        held = λ p lo hi b. let (i, e) = safe.inv.held p lo hi b in (i, sym (at_key i) ∙ e);
      };
      matches = subst (Matches k safe.board) (sym h.queue) safe.matches;
      ledger = subst (Ledger safe.board s.places) (sym h.log) (record {
        pushes = Tickets-same safe.ledger.pushes (λ i. sym (at_filling i)) (λ p. refl);
        pops = Tickets-same safe.ledger.pops (λ i. sym (at_emptying i)) (λ p. refl);
        recorded = safe.ledger.recorded;
      });
      sound = h.crashed ∙ safe.sound;
      claimed = safe.claimed;
    }

module _ {A : Type 0} (v : Class) (moved : A → A) (requested n : ℕ) (bounded : requested ≤ 2 ^ 63)
    (rounded : normalize_capacity 64 requested ≡ some n) (es : List (Event A))
    (few : length es + n < 2 ^ 63) where
  pub normalized : Normalized requested n
  normalized =
      let (m, e, h) = normalize_total 64 requested (omega arith) bounded in
      subst (Normalized requested) (some-inj (sym e ∙ rounded)) h

  pub reached : Safe moved normalized.log (0 + length es) (run v moved es (start v n))
  reached =
      let k = normalized.log in
      Same-Safe moved k (0 + length es) (versions_agree v moved n es) (
        subst (λ c. Safe moved k (0 + length es) (run Class.v1 moved es (start Class.v1 c)))
          (sym normalized.power)
          (run-Safe moved k 0 es (start Class.v1 (2 ^ k)) (omega (arith, normalized.power))
            (start-Safe moved k normalized.log_pos)))
