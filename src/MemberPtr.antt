-- ===== src/MemberPtr.antt =====
-- The handles `MemberPtr` of member-base.{hpp,cpp} and the use counters that they keep. A handle
-- is the address of the element that it points into, 0 for none: `mpMember` and `mpUseCounter` lie in
-- one element, and the second is read only when the first is not null. The counters are a map from
-- addresses.
use stream_fdl.Prelude.{ℕ, ◌==◌, if◌then◌else◌}
pub mod Ownership
use stream_fdl.AtomicCounter
use stream_fdl.AtomicCounter.{AtomicCounter}

abbrev pub MemberPtr : Type 0
MemberPtr = ℕ

abbrev pub null : MemberPtr
null = 0

abbrev pub Counters : Type 0
Counters = ℕ → AtomicCounter

abbrev pub change : Counters → ℕ → (AtomicCounter → AtomicCounter) → Counters
change c p f q = if q == p then f (c q) else c q

-- `MAKE_MEMBER_PTR(it)`: the constructor leaves the counter alone.
unfoldable pub make_member_ptr : ℕ → Counters → MemberPtr × Counters
make_member_ptr element c = (element, c)

-- `~MemberPtr`.
unfoldable pub destroy : MemberPtr → Counters → Counters
destroy p c = if p == null then c else change c p AtomicCounter.decrease

-- `MemberPtr(const MemberPtr &)`.
unfoldable pub copy : MemberPtr → Counters → MemberPtr × Counters
copy other c = if other == null then (null, c) else (other, change c other AtomicCounter.increase)

-- `operator=(const MemberPtr &)`: what `this` pointed at before is overwritten.
unfoldable pub copy_assign : (this other : MemberPtr) → Counters → MemberPtr × Counters
copy_assign this other c =
    if other == null then (null, c) else (other, change c other AtomicCounter.increase)

-- `MemberPtr(MemberPtr &&)`: the new handle and what is left of the other.
unfoldable pub move : MemberPtr → Counters → MemberPtr × MemberPtr × Counters
move other c = if other == null then (null, other, c) else (other, null, c)

-- `operator=(MemberPtr &&)`.
unfoldable pub move_assign : (this other : MemberPtr) → Counters → MemberPtr × MemberPtr × Counters
move_assign this other c = if other == null then (null, other, c) else (other, null, c)
