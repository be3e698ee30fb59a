-- ===== src/AtomicCounter.antt =====
-- src/dynamic-subgraph/atomic-counter.{hpp,cpp}: a counter behind a mutex. Each method holds the
-- lock for its whole body, so it is one step of the interleaving; the copies and moves of a counter
-- copy the value without the lock.
use stream_fdl.Prelude.{ℕ, ◌+◌, ◌-◌, ◌%◌, ◌^◌, Bool, ltb, if◌then◌else◌}

pub record AtomicCounter : Type 0 where
  pub value : ℕ

abbrev pub counter : ℕ → AtomicCounter
counter n = record { value = n }

-- `++mValue` on a `size_t`.
unfoldable pub increase : AtomicCounter → AtomicCounter
increase c = record c { value = (c.value + 1) % 2 ^ 64 }

unfoldable pub decrease : AtomicCounter → AtomicCounter
decrease c = if ltb 0 c.value then record c { value = c.value - 1 } else c

unfoldable pub non_zero : AtomicCounter → Bool
non_zero c = ltb 0 c.value

unfoldable pub get : AtomicCounter → ℕ
get c = c.value
