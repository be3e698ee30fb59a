-- ===== src/Watchlist/Runs.antt =====
-- What the map of watchlist.cpp can hold: its comparator takes every two valid handles for one.
use stream_fdl.Prelude.{
  ℕ, String, ◌≡◌, refl, sym, ap, ◌∙◌, subst, inl, inr, Bool, true, false, ◌||◌, some, List, [], ◌∷◌,
  arith, ◌==◌, if◌then◌else◌, Bool-cases, Option-cases, any, ok, >>=-eq-ok, ok-injective,
}
use stream_fdl.AtomicCounter.{decrease}
use stream_fdl.StdMap
use stream_fdl.MemberPtr.{MemberPtr, null}
use stream_fdl.Members.{PrimaryKey, MemberProxy}
use stream_fdl.DataStore.{Channel, DataStore, adjust_counter, get_node_by_name}
use stream_fdl.DataStore.Lookup.{NewIsValid, get-ne_null}
use stream_fdl.Watchlist.{
  Watchlist, WatchlistMemberType, initial, InternalMembers, ptr_less, find_key, notify_used,
  add_member, initialise_loop, try_initialise, add_member_ptr,
}

-- At most one entry, with a valid handle and the type of an initial member.
abbrev pub IsSingle : InternalMembers → Type 0
IsSingle [] = Unit {0}
IsSingle ((p, t) ∷ []) = ((p == null) ≡ false) × (t ≡ initial)
IsSingle (m ∷ m' ∷ ms) = ⊥

emplace-IsSingle :
    (p : MemberPtr) (ms : InternalMembers)
    → (p == null) ≡ false
    → IsSingle ms
    → IsSingle (StdMap.emplace ptr_less p initial ms).0
unfolding StdMap.emplace StdMap.find StdMap.equivalent ptr_less
emplace-IsSingle p [] n s = (n, refl)
emplace-IsSingle p ((q, t) ∷ []) n s = ground arith
emplace-IsSingle p (m ∷ m' ∷ ms) n s = absurd s

-- What one name leaves in the map: a null handle is not put in.
emplace_valid-IsSingle :
    (p : MemberPtr) (ms : InternalMembers)
    → IsSingle ms
    → IsSingle (if p == null then ms else (StdMap.emplace ptr_less p initial ms).0)
emplace_valid-IsSingle p ms s =
    let put = (StdMap.emplace ptr_less p initial ms).0 in
    elim (Bool-cases (p == null)) [
      | inl n ↦ subst (λ b. IsSingle (if b then ms else put)) (sym n) s
      | inr n ↦ subst (λ b. IsSingle (if b then ms else put)) (sym n) (emplace-IsSingle p ms n s)
    ]

-- A second valid handle is refused.
emplace-refused :
    (p q : MemberPtr) (t u : WatchlistMemberType) (ms : InternalMembers)
    → (p == null) ≡ false
    → (q == null) ≡ false
    → (StdMap.emplace ptr_less p t ((q, u) ∷ ms)).1 ≡ false
unfolding StdMap.emplace StdMap.find StdMap.equivalent ptr_less
emplace-refused p q t u ms n n' = ground arith

IsSingle-head :
    (q : MemberPtr) (u : WatchlistMemberType) (ms : InternalMembers)
    → IsSingle ((q, u) ∷ ms)
    → (q == null) ≡ false
IsSingle-head q u [] s = s.0
IsSingle-head q u (m ∷ ms) s = absurd s

held-refuses :
    (p : MemberPtr) (t : WatchlistMemberType) (ms : InternalMembers)
    → IsSingle ms
    → any (λ m. m.0 == p) ms ≡ true
    → (StdMap.emplace ptr_less p t ms).1 ≡ false
unfolding StdMap.emplace StdMap.find StdMap.equivalent ptr_less
held-refuses p t [] s h = ground arith
held-refuses p t ((q, u) ∷ []) s h = ground arith
held-refuses p t (m ∷ m' ∷ ms) s h = absurd s

module _ {V : Type 0} where
  -- Where the search finds an entry, no valid handle can be added.
  find_key-refuses :
      (ds : DataStore V) (key : PrimaryKey) (ms : InternalMembers)
      (e : MemberPtr × WatchlistMemberType) (p : MemberPtr) (t : WatchlistMemberType)
      → IsSingle ms
      → find_key ds key ms ≡ ok (some e)
      → (p == null) ≡ false
      → (StdMap.emplace ptr_less p t ms).1 ≡ false
  unfolding find_key
  find_key-refuses ds key [] e p t s h n = ground arith
  find_key-refuses ds key ((q, u) ∷ ms) e p t s h n =
      emplace-refused p q t u ms n (IsSingle-head q u ms s)

  pub find_key-initial :
      (ds : DataStore V) (key : PrimaryKey) (ms : InternalMembers) (p : MemberPtr)
      (t : WatchlistMemberType)
      → IsSingle ms
      → find_key ds key ms ≡ ok (some (p, t))
      → t ≡ initial
  unfolding find_key
  find_key-initial ds key [] p t s h = ground arith
  find_key-initial ds key ((q, u) ∷ []) p t s h = ground arith
  find_key-initial ds key (m ∷ m' ∷ ms) p t s h = absurd s

  pub notify_used-same :
      (key : PrimaryKey) (w w' : Watchlist) (ds ds' : DataStore V) (b : Bool)
      → IsSingle w.members
      → notify_used key w ds ≡ ok (w', ds', b)
      → (w' ≡ w) × (b ≡ false)
  unfolding notify_used
  notify_used-same key w w' ds ds' b s h =
      let (it, found, rest) = >>=-eq-ok (find_key ds key w.members) _ h in
      elim (Option-cases it) [
        | inl e ↦ ground arith
        | inr ((p, t), e) ↦
            let first = find_key-initial ds key w.members p t s (found ∙ ap ok e) in ground arith
      ]

  pub add_member_ptr-same :
      (p : MemberPtr) (t : WatchlistMemberType) (w w' : Watchlist) (ds ds' : DataStore V)
      → IsSingle w.members
      → add_member_ptr p t w ds ≡ ok (w', ds')
      → w' ≡ w
  unfolding add_member_ptr
  add_member_ptr-same p t w w' ds ds' s h = ground (arith, held-refuses p t w.members)

  module _ (ch : Channel V) (rounds : ℕ) (valid : NewIsValid ch) where
    pub add_member-same :
        (member : MemberProxy) (t : WatchlistMemberType) (w w' : Watchlist) (ds ds' : DataStore V)
        → IsSingle w.members
        → add_member ch rounds member t w ds ≡ ok (w', ds')
        → w' ≡ w
    unfolding add_member
    add_member-same member t w w' ds ds' s h =
        grind (arith, find_key-refuses, get-ne_null ch rounds valid)

    initialise_loop-IsSingle :
        (names kept names' : List String) (ms ms' : InternalMembers) (ds ds' : DataStore V)
        → IsSingle ms
        → initialise_loop ch rounds names kept ms ds ≡ ok (names', ms', ds')
        → IsSingle ms'
    unfolding initialise_loop
    initialise_loop-IsSingle [] kept names' ms ms' ds ds' s h =
        subst IsSingle (ap (λ o. o.1) (ok-injective h)) s
    initialise_loop-IsSingle (name ∷ names) kept names' ms ms' ds ds' s h =
        let ((ds₁, p), found, h₁) = >>=-eq-ok (get_node_by_name ch rounds name ds) _ h in
        let (ds₂, left, h₂) =
          >>=-eq-ok
            (if p == null || (StdMap.emplace ptr_less p initial ms).1
              then ok ds₁
              else adjust_counter decrease p ds₁)
            _ h₁ in
        initialise_loop-IsSingle names _ names' _ ms' ds₂ ds' (emplace_valid-IsSingle p ms s) h₂

    pub try_initialise-IsSingle :
        (w w' : Watchlist) (ds ds' : DataStore V)
        → IsSingle w.members
        → try_initialise ch rounds w ds ≡ ok (w', ds')
        → IsSingle w'.members
    unfolding try_initialise
    try_initialise-IsSingle w w' ds ds' s h =
        let ((names, ms, ds₁), run, kept) =
          >>=-eq-ok (initialise_loop ch rounds w.initial_member_names [] w.members ds) _ h in
        let at_end =
          initialise_loop-IsSingle w.initial_member_names [] names w.members ms ds ds₁ s run in
        subst IsSingle (ap (λ o. o.0.members) (ok-injective kept)) at_end
