-- ===== src/Watchlist/Kept.antt =====
-- What the operations of watchlist.cpp keep of the store.
use stream_fdl.Prelude.{
  ℕ, String, inl, inr, not, ◌&&◌, ◌||◌, List, [], ◌∷◌, ◌++◌, ◌==◌, if◌then◌else◌, Option-cases, ok,
}
use stream_fdl.Prelude.After.{Any, After, >>=-After, if-After, Outcome-After}
use stream_fdl.AtomicCounter.{increase, decrease}
use stream_fdl.StdMap
use stream_fdl.MemberPtr.{null}
use stream_fdl.Members.{PrimaryKey, MemberProxy}
use stream_fdl.DataStore.{
  Channel, DataStore, require, check_topic_primary_ignored, adjust_counter, get, get_node_by_name,
}
use stream_fdl.DataStore.Kept.{IsKept, get-After, get_node_by_name-After}
use stream_fdl.Watchlist.{
  WatchlistMemberType, initial, is_blindspot, InternalMembers, Watchlist, ptr_less, find_key,
  destroy_all, reset, notify_used, copy_all, add_member, initialise_loop, try_initialise,
  get_members,
}

module _ {V : Type 0} (ch : Channel V) (rounds : ℕ) (I : DataStore V → Type 0)
    (kept : IsKept ch rounds I) where
  destroy_all-After :
      (ms : InternalMembers) (ds : DataStore V) → I ds → After Any I (destroy_all ms ds)
  unfolding destroy_all
  destroy_all-After [] ds i = i
  destroy_all-After ((p, t) ∷ ms) ds i =
      >>=-After Any I (adjust_counter decrease p ds) _ (kept.counting decrease p ds i)
        (λ ds' i'. destroy_all-After ms ds' i')

  pub reset-After : (w : Watchlist) (ds : DataStore V) → I ds → After Any (λ r. I r.1) (reset w ds)
  unfolding reset
  reset-After w ds i =
      >>=-After Any _ (destroy_all w.members ds) _ (destroy_all-After w.members ds i) (λ ds' i'. i')

  pub notify_used-After :
      (key : PrimaryKey) (w : Watchlist) (ds : DataStore V)
      → I ds
      → After Any (λ r. I r.1) (notify_used key w ds)
  unfolding notify_used
  notify_used-After key w ds i =
      >>=-After Any _ (find_key ds key w.members) _ (Outcome-After _) (λ it _.
        elim (Option-cases it) [
          | inl missing ↦ rw missing i
          | inr ((p, t), at) ↦ rw at (
              if-After Any _ (not (is_blindspot t)) _ _ i (
                >>=-After Any _ (adjust_counter decrease p ds) _ (kept.counting decrease p ds i)
                  (λ ds' i'. i')))
        ])

  copy_all-After :
      (ms : InternalMembers) (ds : DataStore V) → I ds → After Any (λ r. I r.1) (copy_all ms ds)
  unfolding copy_all
  copy_all-After [] ds i = i
  copy_all-After ((p, t) ∷ ms) ds i =
      >>=-After Any _ (adjust_counter increase p ds) _ (kept.counting increase p ds i)
        (λ ds' i'. >>=-After Any _ (copy_all ms ds') _ (copy_all-After ms ds' i') (λ r i''. i''))

  pub add_member-After :
      (m : MemberProxy) (t : WatchlistMemberType) (w : Watchlist) (ds : DataStore V)
      → I ds
      → After Any (λ r. I r.1) (add_member ch rounds m t w ds)
  unfolding add_member
  add_member-After m t w ds i =
      if-After Any _ (m.is_topic && check_topic_primary_ignored ds m.primary_key) _ _ i (
        >>=-After Any _ (find_key ds m.primary_key w.members) _ (Outcome-After _) (λ it _.
          elim (Option-cases it) [
            | inl missing ↦ rw missing i
            | inr (e, at) ↦ rw at (
                >>=-After Any _ (get ch rounds m ds) _ (get-After ch rounds I kept m ds i) (λ r i'.
                  >>=-After Any _ (require (StdMap.emplace ptr_less r.1 t w.members).1) _
                    (Outcome-After _) (λ _ _. i')))
          ]))

  initialise_loop-After :
      (names left : List String) (ms : InternalMembers) (ds : DataStore V)
      → I ds
      → After Any (λ r. I r.2) (initialise_loop ch rounds names left ms ds)
  unfolding initialise_loop
  initialise_loop-After [] left ms ds i = i
  initialise_loop-After (name ∷ names) left ms ds i =
      >>=-After Any _ (get_node_by_name ch rounds name ds) _
        (get_node_by_name-After ch rounds I kept name ds i)
        (λ r i'.
          let members' = StdMap.emplace ptr_less r.1 initial ms in
          >>=-After Any _
            (if r.1 == null || members'.1 then ok r.0 else adjust_counter decrease r.1 r.0) _
            (if-After Any I (r.1 == null || members'.1) _ _ i' (kept.counting decrease r.1 r.0 i'))
            (λ ds'' i''.
              initialise_loop-After names (if r.1 == null then left ++ name ∷ [] else left)
                (if r.1 == null then ms else members'.0) ds'' i''))

  pub get_members-After :
      (w : Watchlist) (ds : DataStore V)
      → I ds
      → After Any (λ r. I r.1) (get_members ch rounds w ds)
  unfolding get_members try_initialise
  get_members-After w ds i =
      >>=-After Any _ (try_initialise ch rounds w ds) _
        (>>=-After Any _ (initialise_loop ch rounds w.initial_member_names [] w.members ds) _
          (initialise_loop-After w.initial_member_names [] w.members ds i) (λ r i'. i'))
        (λ r i'.
          >>=-After Any _ (copy_all r.0.members r.1) _ (copy_all-After r.0.members r.1 i')
            (λ r' i''. i''))
