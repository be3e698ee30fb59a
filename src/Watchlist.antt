-- ===== src/Watchlist.antt =====
-- src/fault-detection/watchlist.{hpp,cpp}: the members under observation. `std::map<MemberPtr, …>`
-- orders its keys by `operator<`, which `MemberPtr` does not declare: its conversion to `bool` is
-- compared. Assertions are on. The store is threaded through, since handles count their uses there.
use stream_fdl.Prelude.{
  ◌>>◌, ℕ, ◌+◌, String, Bool, true, false, not, ◌&&◌, ◌||◌, Option, none, some, List, [], ◌∷◌, ◌++◌,
  str_eq, ◌==◌, if◌then◌else◌, any, dangling, Outcome, ok, fault, ◌>>=◌,
}
pub mod Kept
pub mod Runs
pub mod Calls
pub mod Adding
pub mod Notified
pub mod Initialise
use stream_fdl.AtomicCounter.{increase, decrease}
use stream_fdl.StdMap
use stream_fdl.MemberPtr.{MemberPtr, null}
use stream_fdl.Members.{PrimaryKey, MemberProxy, Member, base_of}
use stream_fdl.DataStore.{
  Channel, DataStore, member_at, require, adjust_counter, check_topic_primary_ignored, get,
  get_node_by_name,
}

pub data WatchlistMemberType : Type 0 where
  normal initial blindspot : WatchlistMemberType

abbrev pub InternalMembers : Type 0
InternalMembers = List (MemberPtr × WatchlistMemberType)

pub record Watchlist : Type 0 where
  pub initial_member_names : List String
  pub members : InternalMembers

-- `bool(a) < bool(b)`.
unfoldable pub ptr_less : MemberPtr → MemberPtr → Bool
ptr_less a b = (a == null) && not (b == null)

abbrev pub is_blindspot : WatchlistMemberType → Bool
is_blindspot normal = false
is_blindspot initial = false
is_blindspot blindspot = true

-- `erase` of the entry that the search found.
unfoldable pub erase_ptr : MemberPtr → InternalMembers → InternalMembers
erase_ptr p [] = []
erase_ptr p ((q, t) ∷ ms) = if q == p then ms else (q, t) ∷ erase_ptr p ms

module _ {V : Type 0} where
  -- `find_if` by the key behind each handle.
  unfoldable pub find_key :
      DataStore V
      → PrimaryKey
      → InternalMembers
      → Outcome (Option (MemberPtr × WatchlistMemberType))
  find_key ds key [] = ok none
  find_key ds key ((p, t) ∷ ms) =
      let rest = find_key ds key ms in
      elim (member_at ds p) [
        | none ↦ fault dangling
        | some m ↦ if str_eq (base_of m).primary_key key then ok (some (p, t)) else rest
      ]

  unfoldable pub contains : PrimaryKey → Watchlist → DataStore V → Outcome Bool
  contains key w ds = do
    it ← find_key ds key w.members
    ok (elim it [ none ↦ false | some e ↦ true ])

  -- `mMembers.clear()`: each handle is destroyed.
  unfoldable pub destroy_all : InternalMembers → DataStore V → Outcome (DataStore V)
  destroy_all [] ds = ok ds
  destroy_all ((p, t) ∷ ms) ds = do ds' ← adjust_counter decrease p ds; destroy_all ms ds'

  unfoldable pub reset : Watchlist → DataStore V → Outcome (Watchlist × DataStore V)
  reset w ds = do ds' ← destroy_all w.members ds; ok (record w { members = [] }, ds')

  unfoldable pub notify_used :
      PrimaryKey → Watchlist → DataStore V → Outcome (Watchlist × DataStore V × Bool)
  notify_used key w ds = do
    it ← find_key ds key w.members
    elim it [
      | none ↦ ok (w, ds, false)
      | some (p, t) ↦ if not (is_blindspot t) then ok (w, ds, false) else (do
        ds' ← adjust_counter decrease p ds
        ok (record w { members = erase_ptr p w.members }, ds', true))
    ]

  -- The copies of the handles that `getMembers` returns.
  unfoldable pub copy_all : InternalMembers → DataStore V → Outcome (List MemberPtr × DataStore V)
  copy_all [] ds = ok ([], ds)
  copy_all ((p, t) ∷ ms) ds = do
    ds' ← adjust_counter increase p ds
    (ps, ds'') ← copy_all ms ds'
    ok (p ∷ ps, ds'')

  -- `addMember(MemberPtr, …)`: the argument is a handle of its own.
  unfoldable pub add_member_ptr :
      MemberPtr → WatchlistMemberType → Watchlist → DataStore V → Outcome (Watchlist × DataStore V)
  add_member_ptr p t w ds =
      if any (λ m. m.0 == p) w.members
      then (do
        let (members, emplaced) = StdMap.emplace ptr_less p t w.members
        require emplaced
        ok (record w { members = members }, ds))
      else (do ds' ← adjust_counter decrease p ds; ok (w, ds'))

  module _ (ch : Channel V) (rounds : ℕ) where
    -- `addMember(const MemberProxy &, …)`.
    unfoldable pub add_member :
        MemberProxy
        → WatchlistMemberType
        → Watchlist
        → DataStore V
        → Outcome (Watchlist × DataStore V)
    add_member member t w ds =
        if member.is_topic && check_topic_primary_ignored ds member.primary_key
        then ok (w, ds)
        else (do
          it ← find_key ds member.primary_key w.members
          elim it [
            | none ↦ ok (w, ds)
            | some e ↦ do
              (ds', p) ← get ch rounds member ds
              let (members, emplaced) = StdMap.emplace ptr_less p t w.members
              require emplaced
              ok (record w { members = members }, ds')
          ])

    -- The loop of `tryInitialise`: the names that are left, the members, the store.
    unfoldable pub initialise_loop :
        List String
        → List String
        → InternalMembers
        → DataStore V
        → Outcome (List String × InternalMembers × DataStore V)
    initialise_loop [] kept members ds = ok (kept, members, ds)
    initialise_loop (name ∷ names) kept members ds = do
      (ds', p) ← get_node_by_name ch rounds name ds
      let (members', emplaced) = StdMap.emplace ptr_less p initial members
      ds'' ← if p == null || emplaced then ok ds' else adjust_counter decrease p ds'
      initialise_loop names (if p == null then kept ++ name ∷ [] else kept)
          (if p == null then members else members') ds''

    unfoldable pub try_initialise : Watchlist → DataStore V → Outcome (Watchlist × DataStore V)
    unfolding initialise_loop
    try_initialise w ds = do
      (names, members, ds') ← initialise_loop w.initial_member_names [] w.members ds
      ok (record { initial_member_names = names; members = members }, ds')

    unfoldable pub get_members :
        Watchlist → DataStore V → Outcome (Watchlist × DataStore V × List MemberPtr)
    get_members w ds = do
      (w', ds') ← try_initialise w ds
      (ps, ds'') ← copy_all w'.members ds'
      ok (w', ds'', ps)
