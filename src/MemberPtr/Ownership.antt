-- ===== src/MemberPtr/Ownership.antt =====
-- Who holds an element: the handles in a program state against the use counters that
-- member-base.cpp keeps.
use stream_fdl.Prelude.{
  ℕ, suc, ◌+◌, ◌-◌, ◌^◌, ◌≤◌, ◌<◌, ◌≡◌, refl, ◌≢◌, false, List, [], ◌∷◌, ◌++◌, arith, ◌==◌,
  if◌then◌else◌, length,
}
use stream_fdl.AtomicCounter
use stream_fdl.AtomicCounter.{AtomicCounter, counter}
use stream_fdl.MemberPtr.{
  MemberPtr, null, Counters, change, make_member_ptr, destroy, copy, copy_assign, move,
}

-- The handles that are alive, and the counters.
pub record State : Type 0 where
  pub handles : List MemberPtr
  pub counters : Counters

-- How many handles point at an element.
abbrev pub holders : ℕ → List MemberPtr → ℕ
holders p [] = 0
holders p (h ∷ hs) = if h == p then suc (holders p hs) else holders p hs

-- One operation of the program on its handles: `before` and `after` are the untouched ones.
pub data Step (s t : State) : Type 0 where
  -- `requestNode` and `requestTopic`: a new element, its counter at one, and a handle to it.
  request :
      (p : ℕ)
      → p ≢ null
      → holders p s.handles ≡ 0
      → t ≡ record {
        handles = (make_member_ptr p s.counters).0 ∷ s.handles;
        counters = change (make_member_ptr p s.counters).1 p (λ _. counter 1);
      }
      → Step s t
  copies :
      (before after : List MemberPtr) (p : MemberPtr)
      → s.handles ≡ before ++ p ∷ after
      → t ≡ record { handles = (copy p s.counters).0 ∷ s.handles; counters = (copy p s.counters).1 }
      → Step s t
  moves :
      (before after : List MemberPtr) (p : MemberPtr)
      → s.handles ≡ before ++ p ∷ after
      → t ≡ record {
        handles = (move p s.counters).0 ∷ before ++ (move p s.counters).1 ∷ after;
        counters = (move p s.counters).2;
      }
      → Step s t
  destroys :
      (before after : List MemberPtr) (p : MemberPtr)
      → s.handles ≡ before ++ p ∷ after
      → t ≡ record { handles = before ++ after; counters = destroy p s.counters }
      → Step s t

-- Each element's counter is the number of handles that point at it.
abbrev pub IsCounted : State → Type 0
IsCounted s = (p : ℕ) → p ≢ null → (s.counters p).value ≡ holders p s.handles

-- Fewer handles than a `size_t` can count.
abbrev pub IsSmall : State → Type 0
IsSmall s = length s.handles < 2 ^ 64 - 1

holders-append :
    (p : ℕ) (xs ys : List MemberPtr) → holders p (xs ++ ys) ≡ holders p xs + holders p ys
holders-append p [] ys = omega arith
holders-append p (x ∷ xs) ys = ground (arith, holders-append p xs ys)

holders-le-length : (p : ℕ) (xs : List MemberPtr) → holders p xs ≤ length xs
holders-le-length p [] = omega arith
holders-le-length p (x ∷ xs) = ground (arith, holders-le-length p xs)

pub Step-IsCounted : {s t : State} → Step s t → IsSmall s → IsCounted s → IsCounted t
unfolding make_member_ptr copy move destroy AtomicCounter.increase AtomicCounter.decrease
Step-IsCounted {s} {t} (request p n f e) small c q m = rw e (ground (arith, c q m))
Step-IsCounted {s} {t} (copies before after p e e') small c q m =
    rw e' (ground (arith, c q m, holders-le-length q s.handles))
Step-IsCounted {s} {t} (moves before after p e e') small c q m = rw e' (
    ground (
      arith,
      c q m,
      e,
      holders-append q before (p ∷ after),
      holders-append q before (null ∷ after),
    ))
Step-IsCounted {s} {t} (destroys before after p e e') small c q m =
    rw e'
      (ground (arith, c q m, e, holders-append q before (p ∷ after), holders-append q before after))

pub data Reach (s : State) : State → Type 0 where
  here : Reach s s
  next : {t u : State} → Reach s t → IsSmall t → Step t u → Reach s u

Reach-IsCounted : {s t : State} → IsCounted s → Reach s t → IsCounted t
Reach-IsCounted c here = c
Reach-IsCounted c (next r small st) = Step-IsCounted st small (Reach-IsCounted c r)

abbrev pub no_handles : State
no_handles = record { handles = []; counters = λ p. counter 0 }

-- Along any run of requests, copies, moves and destructions from no handles at all, the use counter
-- of an element is the number of handles that point at it, so that a counter of zero means that no
-- handle is left.
pub Reach-counter :
    (t : State) (p : MemberPtr)
    → Reach no_handles t
    → p ≢ null
    → ((t.counters p).value ≡ holders p t.handles)
      × (AtomicCounter.non_zero (t.counters p) ≡ false → holders p t.handles ≡ 0)
unfolding AtomicCounter.non_zero
Reach-counter t p r n = let e = Reach-IsCounted (λ q m. refl) r p n in (e, λ z. ground arith)

-- `getNode` and `getTopic` on a member that the store has already: a handle to an element that has
-- one, and no change of the counter.
unfoldable pub look_up : MemberPtr → State → State
look_up p s = record {
  handles = (make_member_ptr p s.counters).0 ∷ s.handles;
  counters = (make_member_ptr p s.counters).1;
}

-- The newest handle goes out of scope.
unfoldable pub drop_newest : State → State
drop_newest s = elim s.handles [
  | [] ↦ s
  | h ∷ hs ↦ record { handles = hs; counters = destroy h s.counters }
]

-- Looking up an element that one handle holds, and letting the result go, leaves the counter at zero
-- while the first handle still points at the element.
pub look_up-dangles :
    (s : State) (p : MemberPtr)
    → IsCounted s
    → p ≢ null
    → holders p s.handles ≡ 1
    → (AtomicCounter.non_zero ((drop_newest (look_up p s)).counters p) ≡ false)
      × (holders p (drop_newest (look_up p s)).handles ≡ 1)
unfolding look_up drop_newest make_member_ptr destroy AtomicCounter.non_zero AtomicCounter.decrease
look_up-dangles s p c n one = ground (arith, c p n)

-- Copy-assigning over a handle that points at another element leaves that element's counter one
-- above the number of handles that still point at it.
pub copy_assign-leaks :
    (before after : List MemberPtr) (p q : MemberPtr) (c : Counters)
    → IsCounted (record { handles = before ++ p ∷ after; counters = c })
    → p ≢ null
    → p ≢ q
    → ((copy_assign p q c).1 p).value ≡ suc (holders p (before ++ (copy_assign p q c).0 ∷ after))
unfolding copy_assign AtomicCounter.increase
copy_assign-leaks before after p q c counted n other = ground (
  arith,
  counted p n,
  holders-append p before (p ∷ after),
  holders-append p before (q ∷ after),
  holders-append p before (null ∷ after),
)
