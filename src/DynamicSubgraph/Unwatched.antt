-- ===== src/DynamicSubgraph/Unwatched.antt =====
-- The main loop of dynamic-subgraph.cpp on members that exist and are not on the watchlist.
use stream_fdl.Prelude.{
  ℕ, ◌≡◌, refl, inl, inr, Bool, false, some, List, [], ◌∷◌, ◌++◌, Bool-cases, ok,
}
use stream_fdl.Prelude.Double.{Double}
use stream_fdl.MemberPtr.{MemberPtr}
use stream_fdl.Members.{MemberProxy, Proxies, Member}
use stream_fdl.Graph
use stream_fdl.Graph.{Graph, get_incoming}
use stream_fdl.Graph.Vertices.{among, with_vertex}
use stream_fdl.Graph.Edges.{
  Reads, has_key, contains_key-has_key, edges_in, get_incoming-select, select,
}
use stream_fdl.GraphView.{GraphView}
use stream_fdl.DataStore.{Channel, DataStore, member_at}
use stream_fdl.Watchlist.{Watchlist, WatchlistMemberType, normal}
use stream_fdl.Watchlist.Adding.{AreLive, is_watched, contains-is_watched, add_member-unwatched}
use stream_fdl.FaultDetection.{Alert}
use stream_fdl.DynamicSubgraph.{add_members, add_incoming, watch_connections, watch_updates}

module _ (d : Double) (ch : Channel d.Value) (rounds : ℕ) (w : Watchlist) (ds : DataStore d.Value)
    (live : AreLive ds w.members) where
  watch_connections-unchanged :
      (members : Proxies) → watch_connections d ch rounds members w ds ≡ ok (w, ds)
  unfolding watch_connections
  watch_connections-unchanged [] = refl
  watch_connections-unchanged (member ∷ members) =
      elim (Bool-cases (is_watched ds member.primary_key w.members)) [
        | inl watched ↦ rw (
          contains-is_watched ds member.primary_key w live,
          watched,
          watch_connections-unchanged members,
        )
        | inr missing ↦ rw (
          contains-is_watched ds member.primary_key w live,
          missing,
          add_member-unwatched ch rounds member normal w ds live missing,
          watch_connections-unchanged members,
        )
      ]

  -- Where every vertex of the graph and every handle of the watchlist points at a member, the loop
  -- over the updates succeeds and changes neither the watchlist nor the store, whatever the
  -- updates are: it adds only members that are not on the watchlist, and `addMember` adds only
  -- members that are.
  pub watch_updates-unchanged :
      (updates : GraphView) (sag : Graph) (ms : List (Member d.Value))
      → Reads (member_at ds) sag.vertices ms
      → watch_updates d ch rounds updates sag w ds ≡ ok (w, ds)
  unfolding watch_updates Graph.contains
  watch_updates-unchanged [] sag ms reads = refl
  watch_updates-unchanged (update ∷ updates) sag ms reads =
      let inside = contains_key-has_key (member_at ds) update.member sag.vertices ms reads in
      elim (Bool-cases (has_key (member_at ds) ms update.member)) [
        | inl i ↦ rw (
          inside,
          i,
          watch_connections-unchanged update.connections,
          watch_updates-unchanged updates sag ms reads,
        )
        | inr o ↦ rw (inside, o, watch_updates-unchanged updates sag ms reads)
      ]

  -- None of the members is on the watchlist.
  abbrev pub NoneWatched : Proxies → Type 0
  NoneWatched [] = Unit {0}
  NoneWatched (e ∷ es) = (is_watched ds e.primary_key w.members ≡ false) × NoneWatched es

  NoneWatched-select :
      (test : MemberProxy → Bool) (es : Proxies) → NoneWatched es → NoneWatched (select test es)
  NoneWatched-select test [] none' = none'
  NoneWatched-select test (e ∷ es) (n, none') = elim (Bool-cases (test e)) [
    | inl i ↦ rw i (n, NoneWatched-select test es none')
    | inr o ↦ rw o (NoneWatched-select test es none')
  ]

  add_members-unwatched :
      (es : Proxies) (t : WatchlistMemberType)
      → NoneWatched es
      → add_members d ch rounds es t w ds ≡ ok (w, ds)
  unfolding add_members
  add_members-unwatched [] t none' = refl
  add_members-unwatched (e ∷ es) t (n, none') =
      rw (add_member-unwatched ch rounds e t w ds live n, add_members-unwatched es t none')

  Reads-append :
      (ps : List MemberPtr) (ms : List (Member d.Value)) (p : MemberPtr) (m : Member d.Value)
      → Reads (member_at ds) ps ms
      → member_at ds p ≡ some m
      → Reads (member_at ds) (ps ++ p ∷ []) (ms ++ m ∷ [])
  Reads-append [] [] p m reads at = (at, tt)
  Reads-append [] (n ∷ ms) p m reads at = absurd reads
  Reads-append (q ∷ ps) [] p m reads at = absurd reads
  Reads-append (q ∷ ps) (n ∷ ms) p m (at', reads) at = (at', Reads-append ps ms p m reads at)

  -- The members before a member, in the order of its own lists.
  abbrev pub before_member : Member d.Value → Proxies
  before_member m =
      edges_in (member_at ds) (record { vertices = []; visualisation_pending = false }) [] tt m

  -- Each alert is about a member, and what is before that member is not on the watchlist.
  abbrev pub AreExpandable : List Alert → Type 0
  AreExpandable [] = Unit {0}
  AreExpandable (a ∷ as') =
      ((m : Member d.Value) × (member_at ds a.member ≡ some m) × NoneWatched (before_member m))
      × AreExpandable as'

  -- The alert's member joins the graph, and what is before it does not join the watchlist.
  pub expand_one :
      (a : Alert) (m : Member d.Value) (sag : Graph) (ms : List (Member d.Value))
      → Reads (member_at ds) sag.vertices ms
      → member_at ds a.member ≡ some m
      → NoneWatched (before_member m)
      → (add_incoming d ch rounds
            (with_vertex a.member sag).1
            a.member
            (with_vertex a.member sag).0
            w
            ds
          ≡ ok (w, ds))
        × ((ms' : List (Member d.Value)) × Reads
              (member_at ds)
              (with_vertex a.member sag).0.vertices
              ms')
  unfolding add_incoming
  expand_one a m sag ms reads at none' = elim (Bool-cases (among a.member sag.vertices)) [
    | inl known ↦ (rw known, (ms, rw known reads))
    | inr new ↦
        let reads' = Reads-append sag.vertices ms a.member m reads at in
        let grown : Graph = record sag { vertices = sag.vertices ++ a.member ∷ [] } in
        let found = get_incoming-select (member_at ds) grown (ms ++ m ∷ []) reads' m in
        (
          rw (new, at, found)
              (add_members-unwatched _ normal (
                NoneWatched-select (has_key (member_at ds) (ms ++ m ∷ [])) (before_member m)
                  none')),
          (ms ++ m ∷ [], rw new reads'),
        )
  ]
