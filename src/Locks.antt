-- ===== src/Locks.antt =====
-- `ScopeLock` of src/common.hpp on a `std::mutex`, which is the thread that holds it, if any. The
-- logging is left out.
use stream_fdl.Prelude.{ℕ, Option, none, some, ◌==◌, if◌then◌else◌}

-- How a call of `std::mutex::lock` ends, by the C++ standard.
pub data Locking : Type 0 where
  -- The thread holds the mutex.
  acquired : Locking
  -- The call does not return as long as another thread holds the mutex.
  waits : Locking
  -- The thread holds the mutex already.
  undefined_behaviour : Locking

abbrev lock : (thread : ℕ) (holder : Option ℕ) → Locking
lock thread none = acquired
lock thread (some other) = if other == thread then undefined_behaviour else waits

-- `ScopeLock(std::mutex &)`.
unfoldable pub scope_lock : (thread : ℕ) (holder : Option ℕ) → Locking
scope_lock thread holder = lock thread holder

-- `ScopeLock(std::mutex &, std::adopt_lock_t)`: it locks as well, also where the thread has locked the
-- mutex itself, for which the tag is meant.
unfoldable pub adopt_lock : (thread : ℕ) (holder : Option ℕ) → Locking
adopt_lock thread holder = lock thread holder

-- `~ScopeLock`: who holds the mutex afterwards; none where the behaviour is undefined, as the thread
-- does not hold it.
unfoldable pub unlock : (thread : ℕ) (holder : Option ℕ) → Option (Option ℕ)
unlock thread none = none
unlock thread (some other) = if other == thread then some none else none
