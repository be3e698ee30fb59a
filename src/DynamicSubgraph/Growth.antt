-- ===== src/DynamicSubgraph/Growth.antt =====
-- `expandSubgraph` of dynamic-subgraph.cpp on members that exist, where what is before them is not
-- on the watchlist.
use stream_fdl.Prelude.{ℕ, ◌≡◌, refl, ◌∙◌, subst, ◌||◌, List, [], ◌∷◌, arith, ◌==◌, any}
use stream_fdl.Prelude.Double.{Double}
use stream_fdl.MemberPtr.{MemberPtr}
use stream_fdl.Members.{Proxies, Member, node, topic}
use stream_fdl.Graph
use stream_fdl.Graph.{Graph, get_incoming}
use stream_fdl.Graph.Vertices.{among, IsDistinct, with_vertex, with_vertex-IsDistinct, add-After}
use stream_fdl.Graph.Edges.{Reads}
use stream_fdl.DataStore.{Channel, DataStore, member_at}
use stream_fdl.Watchlist.{Watchlist}
use stream_fdl.Watchlist.Adding.{AreLive}
use stream_fdl.FaultDetection.{Alert}
use stream_fdl.DynamicSubgraph.{expand_loop, expand_subgraph}
use stream_fdl.Prelude.After.{After, After-map, >>=-After}
use stream_fdl.AtomicCounter.{increase}
use stream_fdl.DataStore.Live.{HasSameMembers}
use stream_fdl.DynamicSubgraph.Same.{AreLive-same, Reads-same, is_watched-same, adjust_counter-Same}
use stream_fdl.DynamicSubgraph.Unwatched.{NoneWatched, AreExpandable, before_member, expand_one}

module _ (d : Double) (ch : Channel d.Value) (rounds : ℕ) (w : Watchlist)
    (ds ds' : DataStore d.Value) (live : AreLive ds w.members) (live' : AreLive ds' w.members)
    (same : HasSameMembers ds ds') where
  NoneWatched-same :
      (es : Proxies) → NoneWatched d ch rounds w ds live es → NoneWatched d ch rounds w ds' live' es
  NoneWatched-same [] none' = tt
  NoneWatched-same (e ∷ es) (n, none') =
      (is_watched-same ds ds' e.primary_key w.members same ∙ n, NoneWatched-same es none')

  before-same :
      (m : Member d.Value)
      → before_member d ch rounds w ds live m ≡ before_member d ch rounds w ds' live' m
  before-same (node n) = refl
  before-same (topic t) = refl

  pub AreExpandable-same :
      (alerts : List Alert)
      → AreExpandable d ch rounds w ds live alerts
      → AreExpandable d ch rounds w ds' live' alerts
  AreExpandable-same [] able = tt
  AreExpandable-same (a ∷ alerts) ((m, at, none'), able) = (
    (
      m,
      same a.member ∙ at,
      subst (NoneWatched d ch rounds w ds' live') (before-same m)
          (NoneWatched-same (before_member d ch rounds w ds live m) none'),
    ),
    AreExpandable-same alerts able,
  )

module _ (d : Double) (ch : Channel d.Value) (rounds : ℕ) (w : Watchlist) where
  -- The graph with the members of the alerts.
  abbrev pub Grown : List Alert → Graph → Graph → Type 0
  Grown alerts sag sag' =
      IsDistinct sag'.vertices
      × ((q : MemberPtr)
          → among q sag'.vertices ≡ (any (λ a. a.member == q) alerts || among q sag.vertices))

  -- The graph has grown, each of its vertices points at a member, and only counters have changed.
  abbrev pub Expanded :
      List Alert → Graph → DataStore d.Value → Graph × Watchlist × DataStore d.Value → Type 0
  Expanded alerts sag ds (sag', w', ds') =
      Grown alerts sag sag'
      × (w' ≡ w)
      × HasSameMembers ds ds'
      × ((ms : List (Member d.Value)) × Reads (member_at ds') sag'.vertices ms)

  expand_loop-Expanded :
      (alerts : List Alert) (sag : Graph) (ms : List (Member d.Value)) (ds : DataStore d.Value)
      (live : AreLive ds w.members)
      → Reads (member_at ds) sag.vertices ms
      → IsDistinct sag.vertices
      → AreExpandable d ch rounds w ds live alerts
      → After ⊥ (Expanded alerts sag ds) (expand_loop d ch rounds alerts sag w ds)
  unfolding expand_loop
  expand_loop-Expanded [] sag ms ds live reads distinct able =
      ((distinct, λ q. refl), refl, (λ q. refl), (ms, reads))
  expand_loop-Expanded (a ∷ alerts) sag ms ds live reads distinct able =
      let (m, at, none') = able.0 in
      let (members, distinct') = with_vertex-IsDistinct a.member sag distinct in
      >>=-After ⊥ _ (Graph.add a.member sag ds) _
        (add-After ⊥ (HasSameMembers ds) a.member sag ds (λ q. refl)
          (adjust_counter-Same increase a.member ds (m, at)))
        (λ g (is, fresh, same).
          let live₁ = AreLive-same ds g.1 w.members same live in
          let able₁ = AreExpandable-same d ch rounds w ds g.1 live live₁ same (a ∷ alerts) able in
          let (m₁, at₁, free) = able₁.0 in
          let (done, (ms', reads')) =
            expand_one d ch rounds w g.1 live₁ a m₁ sag ms
              (Reads-same ds g.1 sag.vertices ms same reads) at₁ free in
          rw (is, fresh, done)
            (After-map ⊥ _ _ (expand_loop d ch rounds alerts (with_vertex a.member sag).0 w g.1)
              (expand_loop-Expanded alerts (with_vertex a.member sag).0 ms' g.1 live₁ reads'
                distinct' able₁.1)
              (λ r ((distinct'', members'), kept, same', reads''). (
                (distinct'', λ q. members' q ∙ ground (arith, members q)),
                kept,
                (λ q. same' q ∙ same q),
                reads'',
              ))))

  -- Where every vertex of the graph, which has none twice, and every handle of the watchlist points
  -- at a member, each alert is about a member, and what is before such a member is not on the
  -- watchlist, `expandSubgraph` succeeds: the graph then has no member twice, and has those that it
  -- had and those of the alerts, the watchlist is the same, and no member has changed.
  pub expand_subgraph-Expanded :
      (alerts : List Alert) (sag : Graph) (ms : List (Member d.Value)) (ds : DataStore d.Value)
      (live : AreLive ds w.members)
      → Reads (member_at ds) sag.vertices ms
      → IsDistinct sag.vertices
      → AreExpandable d ch rounds w ds live alerts
      → After ⊥ (Expanded alerts sag ds) (expand_subgraph d ch rounds alerts sag w ds)
  unfolding expand_subgraph Graph.request_visualisation
  expand_subgraph-Expanded alerts sag ms ds live reads distinct able =
      >>=-After ⊥ _ (expand_loop d ch rounds alerts sag w ds) _
        (expand_loop-Expanded alerts sag ms ds live reads distinct able) (λ r expanded. expanded)
