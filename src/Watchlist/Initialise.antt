-- ===== src/Watchlist/Initialise.antt =====
-- `tryInitialise` of watchlist.cpp where the store has the nodes of all the names.
use stream_fdl.Prelude.{
  ℕ, String, ◌≡◌, refl, sym, ap, ◌∙◌, subst, inl, inr, Bool, true, false, List, [], ◌∷◌, ◌++◌,
  arith, str_eq, ◌==◌, if◌then◌else◌, Bool-cases, ok,
}
use stream_fdl.AtomicCounter.{AtomicCounter, decrease}
use stream_fdl.DoubleLinkedList.{Ptr, Entry}
use stream_fdl.DoubleLinkedList.Segment.{Cells}
use stream_fdl.DoubleLinkedList.Search.{first_match, find_from-first_match}
use stream_fdl.StdMap
use stream_fdl.MemberPtr.{MemberPtr, null}
use stream_fdl.Members.{Node}
use stream_fdl.DataStore.{Channel, DataStore, adjust_counter, get_node_by_name}
use stream_fdl.DataStore.Held.{count_by}
use stream_fdl.DataStore.Dangling.{adjust_counter-IsView}
use stream_fdl.DataStore.Messages.Round.{View, IsView}
use stream_fdl.Watchlist.{
  Watchlist, WatchlistMemberType, initial, InternalMembers, ptr_less, initialise_loop,
  try_initialise,
}

module _ {T : Type 0} where
  first_match-split :
      (test : T → Bool) (xs : Cells T)
      → (first_match test xs == null) ≡ false
      → (ys : Cells T) × (p : Ptr) × (d : Entry T) × (zs : Cells T) × (xs ≡ ys ++ (p, d) ∷ zs)
        × (first_match test xs ≡ p)
  unfolding first_match
  first_match-split test [] found = absurd (ground arith)
  first_match-split test ((a, x) ∷ xs) found = elim (Bool-cases (test x.instance_value)) [
    | inl hit ↦ ([], a, x, xs, refl, rw hit)
    | inr miss ↦
        let (ys, p, d, zs, split, at) =
          first_match-split test xs (rest (test x.instance_value) miss found) in
        ((a, x) ∷ ys, p, d, zs, ap (λ c. (a, x) ∷ c) split, rw miss at)
  ]
    where
      rest :
          (b : Bool)
          → b ≡ false
          → ((if b then a else first_match test xs) == null) ≡ false
          → (first_match test xs == null) ≡ false
      rest b miss h = subst (λ c. ((if c then a else first_match test xs) == null) ≡ false) miss h

  first_match-count_by :
      (test : T → Bool) (f : AtomicCounter → AtomicCounter) (ys zs : Cells T) (p : Ptr)
      (d : Entry T)
      → first_match test (ys ++ (p, count_by f d) ∷ zs) ≡ first_match test (ys ++ (p, d) ∷ zs)
  unfolding first_match
  first_match-count_by test f [] zs p d = refl
  first_match-count_by test f ((a, x) ∷ ys) zs p d =
      ap (λ q. if test x.instance_value then a else q) (first_match-count_by test f ys zs p d)

-- The watched handles are valid.
abbrev pub AreValid : InternalMembers → Type 0
AreValid [] = Unit {0}
AreValid ((p, t) ∷ ms) = ((p == null) ≡ false) × AreValid ms

emplace-first : (p : MemberPtr) → StdMap.emplace ptr_less p initial [] ≡ ((p, initial) ∷ [], true)
unfolding StdMap.emplace StdMap.find
emplace-first p = refl

emplace-refused :
    (p : MemberPtr) (m : MemberPtr × WatchlistMemberType) (ms : InternalMembers)
    → (p == null) ≡ false
    → AreValid (m ∷ ms)
    → StdMap.emplace ptr_less p initial (m ∷ ms) ≡ (m ∷ ms, false)
unfolding StdMap.emplace StdMap.find StdMap.equivalent ptr_less
emplace-refused p (q, t) ms n (n', valid) = ground arith

module _ {V : Type 0} where
  abbrev pub node_name_is : String → Node V → Bool
  node_name_is name n = str_eq n.name name

  -- The view has a node of each name.
  abbrev pub AreFound : View V → List String → Type 0
  AreFound a [] = Unit {0}
  AreFound a (name ∷ names) =
      ((first_match (node_name_is name) a.nodes == null) ≡ false) × AreFound a names

  abbrev pub HasSameNodes : View V → View V → Type 0
  HasSameNodes a b = (test : Node V → Bool) → first_match test b.nodes ≡ first_match test a.nodes

  AreFound-same :
      (a b : View V) (names : List String) → HasSameNodes a b → AreFound a names → AreFound b names
  AreFound-same a b [] same found = found
  AreFound-same a b (name ∷ names) same (f, found) = (
    subst (λ p. (p == null) ≡ false) (sym (same (node_name_is name))) f,
    AreFound-same a b names same found,
  )

  -- The node of the first name, where nothing is watched yet.
  abbrev pub with_first : View V → List String → InternalMembers → InternalMembers
  with_first a [] ms = ms
  with_first a (name ∷ names) [] = (first_match (node_name_is name) a.nodes, initial) ∷ []
  with_first a (name ∷ names) (m ∷ ms) = m ∷ ms

  -- The handle that the map refuses is destroyed.
  release :
      (rounds : ℕ) (name : String) (ds : DataStore V) (a : View V)
      → IsView rounds ds a
      → (first_match (node_name_is name) a.nodes == null) ≡ false
      → (ds' : DataStore V) × (b : View V) × (adjust_counter decrease
            (first_match (node_name_is name) a.nodes)
            ds
          ≡ ok ds')
        × IsView rounds ds' b
        × HasSameNodes a b
  release rounds name ds a is found =
      let (ys, p, d, zs, split, at) = first_match-split (node_name_is name) a.nodes found in
      let (ds', done, is') = adjust_counter-IsView decrease rounds ds a ys zs p d is split in
      (
        ds',
        record a { nodes = ys ++ (p, count_by decrease d) ∷ zs },
        subst (λ q. adjust_counter decrease q ds ≡ ok ds') (sym at) done,
        is',
        λ test. first_match-count_by test decrease ys zs p d ∙ ap (first_match test) (sym split),
      )

  with_first-taken :
      (a : View V) (names : List String) (m : MemberPtr × WatchlistMemberType)
      (ms : InternalMembers)
      → with_first a names (m ∷ ms) ≡ m ∷ ms
  with_first-taken a [] m ms = refl
  with_first-taken a (name ∷ names) m ms = refl

  get_node_by_name-found :
      (ch : Channel V) (rounds : ℕ) (name : String) (ds : DataStore V) (a : View V)
      → IsView rounds ds a
      → (first_match (node_name_is name) a.nodes == null) ≡ false
      → get_node_by_name ch rounds name ds ≡ ok (ds, first_match (node_name_is name) a.nodes)
  unfolding get_node_by_name
  get_node_by_name-found ch rounds name ds a is found = rw (
    find_from-first_match (node_name_is name) rounds ds.nodes a.nodes is.nodes_are is.few_nodes,
    found,
  )

  module _ (ch : Channel V) (rounds : ℕ) where
    initialise_loop-with_first :
        (names : List String) (ms : InternalMembers) (ds : DataStore V) (a : View V)
        → IsView rounds ds a
        → AreFound a names
        → AreValid ms
        → (ds' : DataStore V) × (b : View V) × (initialise_loop ch rounds names [] ms ds
            ≡ ok ([], with_first a names ms, ds'))
          × IsView rounds ds' b
          × HasSameNodes a b
    unfolding initialise_loop
    initialise_loop-with_first [] ms ds a is found valid = (ds, a, refl, is, λ test. refl)
    initialise_loop-with_first (name ∷ names) [] ds a is (f, found) valid =
        let p = first_match (node_name_is name) a.nodes in
        let (ds', b, done, is', same) =
          initialise_loop-with_first names ((p, initial) ∷ []) ds a is found (f, tt) in
        (
          ds',
          b,
          rw (get_node_by_name-found ch rounds name ds a is f, f, emplace-first p)
              (done ∙ ap (λ v. ok ([], v, ds')) (with_first-taken a names (p, initial) [])),
          is',
          same,
        )
    initialise_loop-with_first (name ∷ names) (m ∷ ms) ds a is (f, found) valid =
        let p = first_match (node_name_is name) a.nodes in
        let (ds₁, a₁, released, is₁, same₁) = release rounds name ds a is f in
        let (ds', b, done, is', same) =
          initialise_loop-with_first names (m ∷ ms) ds₁ a₁ is₁
            (AreFound-same a a₁ names same₁ found) valid in
        (
          ds',
          b,
          rw
              (
                get_node_by_name-found ch rounds name ds a is f,
                f,
                emplace-refused p m ms f valid,
                released,
              )
              (done ∙ ap (λ v. ok ([], v, ds')) (with_first-taken a₁ names m ms)),
          is',
          λ test. same test ∙ same₁ test,
        )

    -- On a well-formed store that has a node of each of the names, and where the watched handles are
    -- valid, `tryInitialise` succeeds and strikes off all the names, but of their nodes it watches at
    -- most the first, and that only where nothing is watched yet; the store stays well-formed, with
    -- the same nodes in the same places.
    pub try_initialise-with_first :
        (w : Watchlist) (ds : DataStore V) (a : View V)
        → IsView rounds ds a
        → AreFound a w.initial_member_names
        → AreValid w.members
        → (ds' : DataStore V) × (b : View V) × (try_initialise ch rounds w ds
            ≡ ok (
              record {
                initial_member_names = [];
                members = with_first a w.initial_member_names w.members;
              },
              ds',
            ))
          × IsView rounds ds' b
          × HasSameNodes a b
    unfolding try_initialise
    try_initialise-with_first w ds a is found valid =
        let (ds', b, done, is', same) =
          initialise_loop-with_first w.initial_member_names w.members ds a is found valid in
        (ds', b, rw done, is', same)
