-- ===== src/Watchlist/Adding.antt =====
-- The outcome of `addMember` of watchlist.cpp on every branch.
use stream_fdl.Prelude.{
  ℕ, ◌≡◌, refl, ◌⊎◌, inl, inr, Bool, true, false, not, ◌&&◌, ◌||◌, Option, none, some, [], ◌∷◌,
  arith, str_eq, ◌==◌, if◌then◌else◌, Bool-cases, assertion, ok, fault,
}
use stream_fdl.StdMap
use stream_fdl.MemberPtr.{MemberPtr, null}
use stream_fdl.Members.{PrimaryKey, MemberProxy, Member, base_of}
use stream_fdl.DataStore.{Channel, DataStore, member_at, check_topic_primary_ignored}
use stream_fdl.DataStore.Messages.Round.{View, IsView}
use stream_fdl.DataStore.Found.{found_at, get-found}
use stream_fdl.Watchlist.{
  Watchlist, WatchlistMemberType, InternalMembers, ptr_less, find_key, contains, add_member,
}

module _ {V : Type 0} where
  -- Each watched handle points at a member.
  abbrev pub AreLive : DataStore V → InternalMembers → Type 0
  AreLive ds [] = Unit {0}
  AreLive ds ((p, t) ∷ ms) =
      ((p == null) ≡ false) × ((m : _) × (member_at ds p ≡ some m)) × AreLive ds ms

  abbrev pub has_key : PrimaryKey → Option (Member V) → Bool
  has_key key none = false
  has_key key (some m) = str_eq (base_of m).primary_key key

  -- Whether one of the handles points at a member with the key.
  abbrev pub is_watched : DataStore V → PrimaryKey → InternalMembers → Bool
  is_watched ds key [] = false
  is_watched ds key ((p, t) ∷ ms) = has_key key (member_at ds p) || is_watched ds key ms

  pub find_key-is_watched :
      (ds : DataStore V) (key : PrimaryKey) (ms : InternalMembers)
      → AreLive ds ms
      → ((is_watched ds key ms ≡ false) × (find_key ds key ms ≡ ok none))
        ⊎ ((is_watched ds key ms ≡ true)
            × ((e : MemberPtr × WatchlistMemberType) × (find_key ds key ms ≡ ok (some e))))
  unfolding find_key
  find_key-is_watched ds key [] live = inl (refl, refl)
  find_key-is_watched ds key ((p, t) ∷ ms) (n, (m, at), live) =
      elim (Bool-cases (str_eq (base_of m).primary_key key)) [
        | inl same ↦ inr (rw (at, same), ((p, t), rw (find_key, at, same)))
        | inr other ↦ elim (find_key-is_watched ds key ms live) [
          | inl (missing, result) ↦ inl (rw (at, other) missing, rw (find_key, at, other) result)
          | inr (watched, (e, result)) ↦
              inr (rw (at, other) watched, (e, rw (find_key, at, other) result))
        ]
      ]

  -- `contains` where each watched handle points at a member.
  pub contains-is_watched :
      (ds : DataStore V) (key : PrimaryKey) (w : Watchlist)
      → AreLive ds w.members
      → contains key w ds ≡ ok (is_watched ds key w.members)
  unfolding contains
  contains-is_watched ds key w live = elim (find_key-is_watched ds key w.members live) [
    | inl (missing, result) ↦ rw (result, missing)
    | inr (watched, (e, result)) ↦ rw (result, watched)
  ]

  -- A member that is not watched is not added.
  pub add_member-unwatched :
      (ch : Channel V) (rounds : ℕ) (m : MemberProxy) (t : WatchlistMemberType) (w : Watchlist)
      (ds : DataStore V)
      → AreLive ds w.members
      → is_watched ds m.primary_key w.members ≡ false
      → add_member ch rounds m t w ds ≡ ok (w, ds)
  unfolding add_member
  add_member-unwatched ch rounds m t w ds live missing =
      elim (Bool-cases (m.is_topic && check_topic_primary_ignored ds m.primary_key)) [
        | inl ignored ↦ rw ignored
        | inr kept ↦ elim (find_key-is_watched ds m.primary_key w.members live) [
          | inl (missing', result) ↦ rw (kept, result)
          | inr (watched, found) ↦ cc
        ]
      ]

  -- A valid handle is not emplaced beside valid handles.
  emplace-refused :
      (p : MemberPtr) (t : WatchlistMemberType) (key : PrimaryKey) (ds : DataStore V)
      (ms : InternalMembers)
      → (p == null) ≡ false
      → AreLive ds ms
      → is_watched ds key ms ≡ true
      → StdMap.emplace ptr_less p t ms ≡ (ms, false)
  unfolding StdMap.emplace StdMap.find StdMap.equivalent ptr_less
  emplace-refused p t key ds [] n live watched = cc
  emplace-refused p t key ds ((q, s) ∷ ms) n (n', at, live) watched = ground arith

  -- On a well-formed store that has the member, with more rounds than members, and a watchlist whose
  -- handles point at members: adding the member does nothing when it is an ignored topic or is not
  -- watched, and fails the assertion when it is watched.
  pub add_member-outcome :
      (ch : Channel V) (rounds : ℕ) (m : MemberProxy) (t : WatchlistMemberType) (w : Watchlist)
      (ds : DataStore V) (a : View V)
      → IsView rounds ds a
      → (found_at m a == null) ≡ false
      → AreLive ds w.members
      → add_member ch rounds m t w ds ≡ (
          if not (m.is_topic && check_topic_primary_ignored ds m.primary_key)
            && is_watched ds m.primary_key w.members
          then fault assertion
          else ok (w, ds))
  unfolding add_member
  add_member-outcome ch rounds m t w ds a is there live =
      elim (Bool-cases (m.is_topic && check_topic_primary_ignored ds m.primary_key)) [
        | inl ignored ↦ rw ignored
        | inr kept ↦ elim (find_key-is_watched ds m.primary_key w.members live) [
          | inl (missing, result) ↦ rw (kept, result, missing)
          | inr (watched, (e, result)) ↦ rw (
            kept,
            result,
            watched,
            get-found ch rounds m ds a is there,
            emplace-refused (found_at m a) t m.primary_key ds w.members there live watched,
          )
        ]
      ]
