-- ===== src/Atomic/Alone.antt =====
-- One call from its beginning to its return, while no other thread takes a turn.
pub mod Push
pub mod Pop
pub mod Failures
use yutil.Common.{Bool, List, [], ◌∷◌, ℕ, zero, suc, ◌≡◌, Option, none, some, ap, ◌∙◌, refl}
use yutil.Atomic.Cells.{Cells, Place, Turn, Reply}
use yutil.Atomic.Versions.Turns.{erase, erase_turn}

module _ {A : Type 0} where
  abbrev pub solo_reply :
      (Cells A → Place A → Option (Reply A × Cells A))
      → Turn A
      → Option (Reply A)
      → Option (Reply A × Cells A)
  solo_reply again t none = again t.queue t.place
  solo_reply again t (some r) = some (r, t.queue)

  abbrev pub solo_turn :
      (Cells A → Place A → Option (Reply A × Cells A))
      → Option (Turn A)
      → Option (Reply A × Cells A)
  solo_turn again none = none
  solo_turn again (some t) = solo_reply again t t.reply

  -- The turns of one call, on fuel, up to its return.
  unfoldable pub solo :
      (Cells A → Place A → Option (Turn A)) → ℕ → Cells A → Place A → Option (Reply A × Cells A)
  solo turn zero q p = none
  solo turn (suc n) q p = solo_turn (solo turn n) (turn q p)

  -- The same with a turn for each element of the list; `true` makes a compare-exchange fail for no
  -- reason.
  unfoldable pub attempt :
      (Bool → Cells A → Place A → Option (Turn A))
      → List Bool
      → Cells A
      → Place A
      → Option (Reply A × Cells A)
  attempt turn [] q p = none
  attempt turn (fails ∷ more) q p = solo_turn (attempt turn more) (turn fails q p)

  solo_reply-erase :
      (again again' : Cells A → Place A → Option (Reply A × Cells A))
      → ((q : Cells A) (p : Place A) → again q p ≡ again' q (erase p))
      → (t : Turn A) (o : Option (Reply A))
      → solo_reply again t o ≡ solo_reply again' (record t { place = erase t.place }) o
  solo_reply-erase again again' h t none = h t.queue t.place
  solo_reply-erase again again' h t (some r) = refl

  solo_turn-erase :
      (again again' : Cells A → Place A → Option (Reply A × Cells A))
      → ((q : Cells A) (p : Place A) → again q p ≡ again' q (erase p))
      → (o : Option (Turn A)) → solo_turn again o ≡ solo_turn again' (erase_turn o)
  solo_turn-erase again again' h none = refl
  solo_turn-erase again again' h (some t) = solo_reply-erase again again' h t t.reply

  -- Two functions that differ in the backoff alone return the same.
  pub attempt-erase :
      (f g : Bool → Cells A → Place A → Option (Turn A))
      → ((b : Bool) (q : Cells A) (p : Place A) → erase_turn (f b q p) ≡ g b q (erase p))
      → (fails : List Bool) (q : Cells A) (p : Place A)
      → attempt f fails q p ≡ attempt g fails q (erase p)
  unfolding attempt
  attempt-erase f g h [] q p = refl
  attempt-erase f g h (b ∷ fails) q p =
      solo_turn-erase (attempt f fails) (attempt g fails) (λ q p. attempt-erase f g h fails q p)
        (f b q p)
      ∙ ap (solo_turn (attempt g fails)) (h b q p)
