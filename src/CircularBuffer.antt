-- ===== src/CircularBuffer.antt =====
-- src/fault-detection/circular-buffer.{hpp,cpp}: the buffer of recent values. `current` is the
-- offset of the iterator `mCurrent` from `mBuffer.begin()`. The values are of any type here; the
-- statistics over doubles are in CircularBuffer/Statistics.antt.
pub mod Growth
pub mod History
pub mod Offset
pub mod Statistics
use stream_fdl.Prelude.{
  ℕ, zero, suc, ◌+◌, ◌-◌, ◌%◌, ◌^◌, Bool, ◌&&◌, List, [], ◌∷◌, none, some, Outcome, ok, fault,
  dangling, assertion, division_by_zero, out_of_range, ◌>>=◌, length, get_elem?, leb, ◌==◌,
  if◌then◌else◌,
}

pub record CircularBuffer {ℓ} (A : Type ℓ) : Type ℓ where
  pub max_size : ℕ
  pub buffer : List A
  pub current : ℕ

-- The conversion of a `ptrdiff_t` sum to `size_t`: `negative` says that the offset is subtracted.
unfoldable pub to_size_t : ℕ → Bool → ℕ → ℕ
to_size_t position negative amount =
    if negative then (position + (2 ^ 64 - amount)) % 2 ^ 64 else (position + amount) % 2 ^ 64

-- `current(offset)` on a buffer of `size` values, as the offset from `begin()`. The remainder is
-- taken in `size_t`, so the `computedOffset < 0` that follows never holds.
unfoldable pub offset_from : ℕ → ℕ → Bool → ℕ → Outcome ℕ
unfolding to_size_t
offset_from position length negative amount =
    if length == 0 then fault division_by_zero else ok (to_size_t position negative amount % length)

module _ {ℓ} {A : Type ℓ} where
  -- The constructor: asserts that at least two values fit.
  unfoldable pub make : ℕ → Outcome (CircularBuffer A)
  make n =
      if leb 2 n then ok (record { max_size = n; buffer = []; current = 0 }) else fault assertion

  -- The copy constructor: the new iterator stands at the same offset in the copied vector.
  unfoldable pub copy : CircularBuffer A → CircularBuffer A
  copy other = record {
    max_size = other.max_size;
    buffer = other.buffer;
    current = 0 + other.current;
  }

  -- `operator=(const CircularBuffer &)`.
  unfoldable pub copy_assign : (this other : CircularBuffer A) → CircularBuffer A
  copy_assign this other = record this {
    max_size = other.max_size;
    buffer = other.buffer;
    current = 0 + other.current;
  }

  -- The move constructor: the vector's storage, and with it the iterator, goes over to the new
  -- buffer. What is left of `other` is not read again.
  unfoldable pub move : CircularBuffer A → CircularBuffer A
  move other = record { max_size = other.max_size; buffer = other.buffer; current = other.current }

  -- `operator=(CircularBuffer &&)`.
  unfoldable pub move_assign : (this other : CircularBuffer A) → CircularBuffer A
  move_assign this other = record this {
    max_size = other.max_size;
    buffer = other.buffer;
    current = other.current;
  }

  -- `std::vector::insert` before the iterator at offset `i`; past `end()` it is undefined.
  unfoldable pub insert_at : List A → ℕ → A → Outcome (List A)
  insert_at xs zero v = ok (v ∷ xs)
  insert_at [] (suc i) v = fault dangling
  insert_at (x ∷ xs) (suc i) v = do rest ← insert_at xs i v; ok (x ∷ rest)

  -- `push`, with the offset of the iterator that it returns.
  unfoldable pub push : CircularBuffer A → A → Outcome (CircularBuffer A × ℕ)
  push c v = do
    xs ← insert_at c.buffer c.current v
    let it = c.current
    let next = if it == length xs && length xs == c.max_size then 0 else it
    ok (record c { buffer = xs; current = next }, it)

  unfoldable pub at : CircularBuffer A → ℕ → Outcome A
  at c i = elim (get_elem? c.buffer i) [ none ↦ fault out_of_range | some v ↦ ok v ]

  unfoldable pub size : CircularBuffer A → ℕ
  size c = length c.buffer

  unfoldable pub full : CircularBuffer A → Bool
  full c = length c.buffer == c.max_size

  unfoldable pub empty : CircularBuffer A → Bool
  empty c = length c.buffer == 0

  -- `*current()`.
  unfoldable pub current_value : CircularBuffer A → Outcome A
  current_value c = elim (get_elem? c.buffer c.current) [ none ↦ fault dangling | some v ↦ ok v ]
