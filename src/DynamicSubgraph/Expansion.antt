-- ===== src/DynamicSubgraph/Expansion.antt =====
-- Theorems on `expandSubgraph` and on the loop over the updates of dynamic-subgraph.cpp.
use stream_fdl.Prelude.{
  ℕ, ◌≡◌, sym, ap, ◌∙◌, subst, Bool, true, false, ◌||◌, List, [], ◌∷◌, arith, ◌==◌, if◌then◌else◌,
  any, ok, >>=-eq-ok, ok-injective,
}
use stream_fdl.Prelude.After.{Any, After-ok, Outcome-After}
use stream_fdl.AtomicCounter.{increase}
use stream_fdl.Prelude.Double.{Double}
use stream_fdl.MemberPtr.{MemberPtr}
use stream_fdl.Members.{MemberProxy, Proxies}
use stream_fdl.Graph
use stream_fdl.Graph.{Graph}
use stream_fdl.Graph.Vertices.{among, IsDistinct, with_vertex, with_vertex-IsDistinct, add-After}
use stream_fdl.GraphView.{GraphView}
use stream_fdl.DataStore.{adjust_counter, Channel, DataStore, member_at}
use stream_fdl.Watchlist
use stream_fdl.Watchlist.{Watchlist, normal, find_key, add_member}
use stream_fdl.FaultDetection.{Alert}
use stream_fdl.DynamicSubgraph.{
  add_incoming, expand_loop, expand_subgraph, watch_connections, watch_updates,
}

module _ (d : Double) (ch : Channel d.Value) (rounds : ℕ) where
  abbrev pub alerted : MemberPtr → List Alert → Bool
  alerted p = any (λ a. a.member == p)

  add_ok :
      (p : MemberPtr) (g : Graph) (ds : DataStore d.Value) (r : Graph × DataStore d.Value × Bool)
      → Graph.add p g ds ≡ ok r
      → r.0 ≡ (with_vertex p g).0
  add_ok p g ds r added =
      (After-ok Any _ (Graph.add p g ds) r
        (add-After Any (λ _. Any) p g ds tt (Outcome-After (adjust_counter increase p ds))) added).0

  expand_loop-IsDistinct :
      (alerts : List Alert) (sag sag' : Graph) (w w' : Watchlist) (ds ds' : DataStore d.Value)
      → IsDistinct sag.vertices
      → expand_loop d ch rounds alerts sag w ds ≡ ok (sag', w', ds')
      → IsDistinct sag'.vertices
        × ((q : MemberPtr) → among q sag'.vertices ≡ (alerted q alerts || among q sag.vertices))
  unfolding expand_loop
  expand_loop-IsDistinct [] sag sag' w w' ds ds' distinct h =
      let same = ap (λ o. o.0) (ok-injective h) in
      (
        subst (λ g. IsDistinct g.vertices) same distinct,
        λ q. ap (λ g. among q g.vertices) (sym same),
      )
  expand_loop-IsDistinct (alert ∷ alerts) sag sag' w w' ds ds' distinct h =
      let ((sag₁, ds₁, added), grown, h₁) = >>=-eq-ok (Graph.add alert.member sag ds) _ h in
      let is = add_ok alert.member sag ds (sag₁, ds₁, added) grown in
      let (members, distinct₁) = with_vertex-IsDistinct alert.member sag distinct in
      let ((w₁, ds₂), run, rest) =
        >>=-eq-ok (add_incoming d ch rounds added alert.member sag₁ w ds₁) _ h₁ in
      let (distinct₂, members₂) =
        expand_loop-IsDistinct alerts sag₁ sag' w₁ w' ds₂ ds'
          (subst (λ g. IsDistinct g.vertices) (sym is) distinct₁) rest in
      (
        distinct₂,
        λ q.
            members₂ q
            ∙ ap (λ g. alerted q alerts || among q g.vertices) is
            ∙ (ground (arith, members q)),
      )

  -- Where `expandSubgraph` returns, no member is twice in the graph if none was before, and the
  -- members of the graph are those it had and those of the new alerts.
  pub expand_subgraph-IsDistinct :
      (alerts : List Alert) (sag sag' : Graph) (w w' : Watchlist) (ds ds' : DataStore d.Value)
      → IsDistinct sag.vertices
      → expand_subgraph d ch rounds alerts sag w ds ≡ ok (sag', w', ds')
      → IsDistinct sag'.vertices
        × ((q : MemberPtr) → among q sag'.vertices ≡ (alerted q alerts || among q sag.vertices))
  unfolding expand_subgraph Graph.request_visualisation
  expand_subgraph-IsDistinct alerts sag sag' w w' ds ds' distinct h =
      let ((sag₁, w₁, ds₁), run, kept) = >>=-eq-ok (expand_loop d ch rounds alerts sag w ds) _ h in
      let (distinct₁, members) = expand_loop-IsDistinct alerts sag sag₁ w w₁ ds ds₁ distinct run in
      let same = ap (λ o. o.0.vertices) (ok-injective kept) in
      (subst IsDistinct same distinct₁, λ q. ap (among q) (sym same) ∙ members q)

  -- A member that is not on the watchlist is not added.
  add_missing :
      (member : MemberProxy) (w w' : Watchlist) (ds ds' : DataStore d.Value)
      → Watchlist.contains member.primary_key w ds ≡ ok false
      → add_member ch rounds member normal w ds ≡ ok (w', ds')
      → (w' ≡ w) × (ds' ≡ ds)
  unfolding Watchlist.contains add_member
  add_missing member w w' ds ds' c h = ground arith

  add_if_missing :
      (member : MemberProxy) (known : Bool) (w w' : Watchlist) (ds ds' : DataStore d.Value)
      → Watchlist.contains member.primary_key w ds ≡ ok known
      → (if known then ok (w, ds) else add_member ch rounds member normal w ds) ≡ ok (w', ds')
      → (w' ≡ w) × (ds' ≡ ds)
  add_if_missing member true w w' ds ds' c h =
      (sym (ap (λ o. o.0) (ok-injective h)), sym (ap (λ o. o.1) (ok-injective h)))
  add_if_missing member false w w' ds ds' c h = add_missing member w w' ds ds' c h

  watch_connections-same :
      (members : Proxies) (w w' : Watchlist) (ds ds' : DataStore d.Value)
      → watch_connections d ch rounds members w ds ≡ ok (w', ds')
      → (w' ≡ w) × (ds' ≡ ds)
  unfolding watch_connections
  watch_connections-same [] w w' ds ds' h =
      (sym (ap (λ o. o.0) (ok-injective h)), sym (ap (λ o. o.1) (ok-injective h)))
  watch_connections-same (member ∷ members) w w' ds ds' h =
      let (known, asked, h₁) = >>=-eq-ok (Watchlist.contains member.primary_key w ds) _ h in
      let ((w₁, ds₁), run, rest) =
        >>=-eq-ok (if known then ok (w, ds) else add_member ch rounds member normal w ds) _ h₁ in
      let (w-same, ds-same) = add_if_missing member known w w₁ ds ds₁ asked run in
      let (w-later, ds-later) = watch_connections-same members w₁ w' ds₁ ds' rest in
      (w-later ∙ w-same, ds-later ∙ ds-same)

  watch_if_inside :
      (members : Proxies) (inside : Bool) (w w' : Watchlist) (ds ds' : DataStore d.Value)
      → (if inside then watch_connections d ch rounds members w ds else ok (w, ds)) ≡ ok (w', ds')
      → (w' ≡ w) × (ds' ≡ ds)
  watch_if_inside members true w w' ds ds' h = watch_connections-same members w w' ds ds' h
  watch_if_inside members false w w' ds ds' h =
      (sym (ap (λ o. o.0) (ok-injective h)), sym (ap (λ o. o.1) (ok-injective h)))

  -- Where the loop over the updates returns, neither the watchlist nor the store has changed: the
  -- loop adds only members that are not on the watchlist, and `addMember` adds only members that are.
  pub watch_updates-same :
      (updates : GraphView) (sag : Graph) (w w' : Watchlist) (ds ds' : DataStore d.Value)
      → watch_updates d ch rounds updates sag w ds ≡ ok (w', ds')
      → (w' ≡ w) × (ds' ≡ ds)
  unfolding watch_updates
  watch_updates-same [] sag w w' ds ds' h =
      (sym (ap (λ o. o.0) (ok-injective h)), sym (ap (λ o. o.1) (ok-injective h)))
  watch_updates-same (update ∷ updates) sag w w' ds ds' h =
      let (inside, asked, h₁) = >>=-eq-ok (Graph.contains (member_at ds) update.member sag) _ h in
      let ((w₁, ds₁), run, rest) =
        >>=-eq-ok
          (if inside then watch_connections d ch rounds update.connections w ds else ok (w, ds)) _
          h₁ in
      let (w-same, ds-same) = watch_if_inside update.connections inside w w₁ ds ds₁ run in
      let (w-later, ds-later) = watch_updates-same updates sag w₁ w' ds₁ ds' rest in
      (w-later ∙ w-same, ds-later ∙ ds-same)
