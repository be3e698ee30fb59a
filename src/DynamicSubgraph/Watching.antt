-- ===== src/DynamicSubgraph/Watching.antt =====
-- The watchlist under the main loop of dynamic-subgraph.cpp.
use stream_fdl.Prelude.{
  ℕ, ◌≡◌, sym, ap, subst, Bool, true, false, none, some, List, [], ◌∷◌, dangling, ok, fault,
  >>=-eq-ok, ok-injective,
}
use stream_fdl.Prelude.Double.{Double}
use stream_fdl.MemberPtr.{MemberPtr}
use stream_fdl.Members.{Proxies}
use stream_fdl.Graph
use stream_fdl.Graph.{Graph}
use stream_fdl.GraphView.Full.{QueryResult, get_full_graph_view}
use stream_fdl.Blindspots.{get_blindspots}
use stream_fdl.DataStore
use stream_fdl.DataStore.{Channel, DataStore, adjust_counter, member_at}
use stream_fdl.DataStore.Lookup.{NewIsValid}
use stream_fdl.Watchlist
use stream_fdl.Watchlist.{
  Watchlist, WatchlistMemberType, InternalMembers, add_member, get_members, copy_all,
  try_initialise, notify_used, destroy_all,
}
use stream_fdl.Watchlist.Runs.{IsSingle, add_member-same}
use stream_fdl.FaultDetection.{Alert}
use stream_fdl.DynamicSubgraph.{
  add_members, add_incoming, expand_loop, expand_subgraph, blind_spot_check,
}

module _ (d : Double) (ch : Channel d.Value) (rounds : ℕ) (valid : NewIsValid ch) where
  -- The calls of `addMember` leave the watchlist with one member at most.
  add_members-IsSingle :
      (es : Proxies) (t : WatchlistMemberType) (w w' : Watchlist) (ds ds' : DataStore d.Value)
      → IsSingle w.members
      → add_members d ch rounds es t w ds ≡ ok (w', ds')
      → IsSingle w'.members
  unfolding add_members
  add_members-IsSingle [] t w w' ds ds' s h =
      subst IsSingle (ap (λ o. o.0.members) (ok-injective h)) s
  add_members-IsSingle (e ∷ es) t w w' ds ds' s h =
      let ((w₁, ds₁), run, rest) = >>=-eq-ok (add_member ch rounds e t w ds) _ h in
      let same = add_member-same ch rounds valid e t w w₁ ds ds₁ s run in
      add_members-IsSingle es t w₁ w' ds₁ ds' (subst IsSingle (ap Watchlist.members (sym same)) s)
        rest

  add_incoming-IsSingle :
      (b : Bool) (p : MemberPtr) (sag : Graph) (w w' : Watchlist) (ds ds' : DataStore d.Value)
      → IsSingle w.members
      → add_incoming d ch rounds b p sag w ds ≡ ok (w', ds')
      → IsSingle w'.members
  unfolding add_incoming
  add_incoming-IsSingle false p sag w w' ds ds' s h =
      subst IsSingle (ap (λ o. o.0.members) (ok-injective h)) s
  add_incoming-IsSingle true p sag w w' ds ds' s h =
      let (m, read, h₁) =
        >>=-eq-ok (elim (member_at ds p) [ none ↦ fault dangling | some m ↦ ok m ]) _ h in
      let (es, found, h₂) = >>=-eq-ok (Graph.get_incoming (member_at ds) sag m) _ h₁ in
      add_members-IsSingle es Watchlist.normal w w' ds ds' s h₂

  expand_loop-IsSingle :
      (as' : List Alert) (sag sag' : Graph) (w w' : Watchlist) (ds ds' : DataStore d.Value)
      → IsSingle w.members
      → expand_loop d ch rounds as' sag w ds ≡ ok (sag', w', ds')
      → IsSingle w'.members
  unfolding expand_loop
  expand_loop-IsSingle [] sag sag' w w' ds ds' s h =
      subst IsSingle (ap (λ o. o.1.members) (ok-injective h)) s
  expand_loop-IsSingle (a ∷ as') sag sag' w w' ds ds' s h =
      let ((grown, ds₁, added), _, h₁) = >>=-eq-ok (Graph.add a.member sag ds) _ h in
      let ((w₁, ds₂), run, rest) =
        >>=-eq-ok (add_incoming d ch rounds added a.member grown w ds₁) _ h₁ in
      expand_loop-IsSingle as' grown sag' w₁ w' ds₂ ds'
        (add_incoming-IsSingle added a.member grown w w₁ ds₁ ds₂ s run) rest

  pub expand_subgraph-IsSingle :
      (as' : List Alert) (sag sag' : Graph) (w w' : Watchlist) (ds ds' : DataStore d.Value)
      → IsSingle w.members
      → expand_subgraph d ch rounds as' sag w ds ≡ ok (sag', w', ds')
      → IsSingle w'.members
  unfolding expand_subgraph
  expand_subgraph-IsSingle as' sag sag' w w' ds ds' s h =
      let ((sag₁, w₁, ds₁), run, kept) = >>=-eq-ok (expand_loop d ch rounds as' sag w ds) _ h in
      subst IsSingle (ap (λ o. o.1.members) (ok-injective kept))
        (expand_loop-IsSingle as' sag sag₁ w w₁ ds ds₁ s run)

  pub blind_spot_check-IsSingle :
      (q : QueryResult) (w w' : Watchlist) (ds ds' : DataStore d.Value)
      → IsSingle w.members
      → blind_spot_check d ch rounds q w ds ≡ ok (w', ds')
      → IsSingle w'.members
  unfolding blind_spot_check
  blind_spot_check-IsSingle q w w' ds ds' s h =
      let (view, viewed, h₁) =
        >>=-eq-ok (get_full_graph_view (DataStore.check_topic_primary_ignored ds) q) _ h in
      let (spots, found, h₂) = >>=-eq-ok (get_blindspots view) _ h₁ in
      add_members-IsSingle spots Watchlist.blindspot w w' ds ds' s h₂
