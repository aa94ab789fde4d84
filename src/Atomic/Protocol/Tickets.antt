-- ===== src/Atomic/Protocol/Tickets.antt =====
-- Positions that are handed out one after another: each is held by one thread, and then settled.
use yutil.Common.{ℕ, ◌+◌, ◌<◌, ◌≤◌, ◌≡◌, ◌≢◌, ◌⊎◌, inl, inr, Option, none, some, sym, ◌∙◌, arith}
use native.Mathlib.Decide.{ℕ_discrete}

-- Of `next` positions, `g j` is the one that thread `j` holds, and `n p` is how often `p` has been
-- settled.
pub record Tickets (next : ℕ) (g : ℕ → Option ℕ) (n : ℕ → ℕ) : Type 0 where
  pub below :
      (p : ℕ)
      → p < next
      → ((n p ≡ 1) × ((j : ℕ) → g j ≢ some p)) ⊎ ((n p ≡ 0) × (j : ℕ) × (g j ≡ some p))
  pub above : (p : ℕ) → next ≤ p → n p ≡ 0
  pub apart : (i j p : ℕ) → g i ≡ some p → g j ≡ some p → i ≡ j
  pub within : (i p : ℕ) → g i ≡ some p → p < next

module _ {next : ℕ} {g g' : ℕ → Option ℕ} {n n' : ℕ → ℕ} (t : Tickets next g n) where
  pub Tickets-same : ((j : ℕ) → g' j ≡ g j) → ((p : ℕ) → n' p ≡ n p) → Tickets next g' n'
  Tickets-same h k = record {
    below = λ p l. elim (t.below p l) [
      | inl (o, f) ↦ inl (k p ∙ o, λ j e. f j (sym (h j) ∙ e))
      | inr (z, j, e) ↦ inr (k p ∙ z, j, h j ∙ e)
    ];
    above = λ p l. k p ∙ t.above p l;
    apart = λ i j p e f. t.apart i j p (sym (h i) ∙ e) (sym (h j) ∙ f);
    within = λ i p e. t.within i p (sym (h i) ∙ e);
  }

  module _ (i : ℕ) (others : (j : ℕ) → j ≢ i → g' j ≡ g j) where
    -- Thread `i` takes the next position.
    pub Tickets-claim :
        g i ≡ none → g' i ≡ some next → ((p : ℕ) → n' p ≡ n p) → Tickets (next + 1) g' n'
    Tickets-claim b a k = record {
      below = λ p l. elim (ℕ_discrete p next) [
        | yes e ↦ inr (k p ∙ t.above p (omega arith), i, ground arith)
        | no ne ↦ elim (t.below p (omega arith)) [
          | inl (o, f) ↦ inl (k p ∙ o, λ j e. ground (arith, f j, others j, a))
          | inr (z, j, e) ↦ inr (k p ∙ z, j, ground (arith, others j))
        ]
      ];
      above = λ p l. k p ∙ t.above p (omega arith);
      apart = λ j l p e f.
          ground (arith, t.apart j l p, t.within j p, t.within l p, others j, others l);
      within = λ j p e. ground (arith, t.within j p, others j);
    }

    -- Thread `i` settles the position that it holds.
    pub Tickets-settle :
        (pos : ℕ)
        → g i ≡ some pos
        → g' i ≡ none
        → n' pos ≡ n pos + 1
        → ((p : ℕ) → p ≢ pos → n' p ≡ n p)
        → Tickets next g' n'
    Tickets-settle pos b a k m = record {
      below = λ p l. elim (ℕ_discrete p pos) [
        | yes e ↦ inl (ground (arith, settled, k), λ j f. ground (arith, others j, t.apart i j pos))
        | no ne ↦ elim (t.below p l) [
          | inl (o, f) ↦ inl (m p ne ∙ o, λ j e. ground (arith, f j, others j))
          | inr (z, j, e) ↦ inr (m p ne ∙ z, j, ground (arith, others j))
        ]
      ];
      above = λ p l. m p (ground (arith, t.within i pos)) ∙ t.above p l;
      apart = λ j l p e f. ground (arith, t.apart j l p, others j, others l);
      within = λ j p e. ground (arith, t.within j p, others j);
    }
      where
        settled : n pos ≡ 0
        settled = elim (t.below pos (t.within i pos b)) [
          | inl (o, f) ↦ absurd (f i b)
          | inr (z, j, e) ↦ z
        ]
