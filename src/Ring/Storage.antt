-- ===== src/Ring/Storage.antt =====
-- The storage that the three ring classes share: `capacity_`, `buffer_`, `head_`, `tail_`, `size_`
-- and the private member `next`, and the lines of each push and pop that move an item.
pub mod Contents
pub mod Abstract
pub mod Tests
use yutil.Common.{
  ℕ, ◌%◌, ◌==◌, Option, none, some, List, get_elem?, set, replicate, length, if◌then◌else◌, ltb,
  inc, dec,
}

pub record Storage {ℓ} (A : Type ℓ) : Type ℓ where
  pub capacity : ℕ
  pub buffer : List A
  pub head : ℕ
  pub tail : ℕ
  pub size : ℕ

-- `next(index)`
unfoldable pub next : ℕ → ℕ → ℕ
next capacity index = inc index % capacity

module _ {ℓ} {A : Type ℓ} where
  -- The constructor: the vector holds values of the default constructor of `T`.
  unfoldable pub create : A → ℕ → Storage A
  create default requested =
      let capacity : ℕ = if requested == 0 then 1 else requested in
      record {
        capacity = capacity;
        buffer = replicate capacity default;
        head = 0;
        tail = 0;
        size = 0;
      }

  -- `none` is an access behind the end of the vector.
  unfoldable pub put : A → Storage A → Option (Storage A)
  unfolding next
  put x s =
      if ltb s.tail (length s.buffer)
      then some (record s {
        buffer = set s.buffer s.tail x;
        tail = next s.capacity s.tail;
        size = inc s.size;
      })
      else none

  -- `moved v` is what the move assignment of `T` leaves behind in the slot.
  unfoldable pub take : (A → A) → Storage A → Option (A × Storage A)
  unfolding next
  take moved s = elim (get_elem? s.buffer s.head) [
    | none ↦ none
    | some v ↦ some (
      v,
      record s {
        buffer = set s.buffer s.head (moved v);
        head = next s.capacity s.head;
        size = dec s.size;
      },
    )
  ]
