-- ===== src/DynamicSubgraph/Turn/Steps.antt =====
-- What a round of the main loop of dynamic-subgraph.cpp does to the graph, and what an abort clears.
use stream_fdl.Prelude.{ℕ, ◌≡◌, refl, ◌∙◌, false, List, [], ◌∷◌, Outcome, ok}
use stream_fdl.Prelude.After.{After, After-map, >>=-After}
use stream_fdl.Prelude.Double.{Double}
use stream_fdl.Members.{Member}
use stream_fdl.Graph
use stream_fdl.Graph.{Graph}
use stream_fdl.Graph.Vertices.{IsDistinct, reset-After}
use stream_fdl.Graph.Edges.{Reads}
use stream_fdl.AtomicCounter.{decrease}
use stream_fdl.DataStore.{Channel, DataStore, member_at, adjust_counter}
use stream_fdl.DataStore.Live.{HasSameMembers, IsLive-same}
use stream_fdl.Watchlist
use stream_fdl.Watchlist.{Watchlist, InternalMembers, destroy_all}
use stream_fdl.Watchlist.Adding.{AreLive}
use stream_fdl.FaultDetection
use stream_fdl.FaultDetection.{
  Alert, FaultDetection, MemberWindow, destroy_window, get_emitted_alerts,
}
use stream_fdl.DynamicSubgraph.{DynamicSubgraphBuilder, expand_subgraph, abort}
use stream_fdl.DynamicSubgraph.Same.{
  Reads-same, Reads-IsLive, adjust_counter-Same, destroy_all-Same,
}
use stream_fdl.DynamicSubgraph.Unwatched.{AreExpandable}
use stream_fdl.DynamicSubgraph.Growth.{Expanded, expand_subgraph-Expanded}
use stream_fdl.DynamicSubgraph.Turn.{HaveMembers, HaveMembers-same, destroy_window-Same}

module _ (d : Double) (ch : Channel d.Value) (rounds : ℕ) where
  open d use {Value, lt, le}

  abbrev pub expand_if :
      List Alert
      → Graph
      → Watchlist
      → DataStore Value
      → Outcome (Graph × Watchlist × DataStore Value)
  expand_if emitted sag w ds = elim emitted [
    | [] ↦ ok (sag, w, ds)
    | a ∷ as' ↦ expand_subgraph d ch rounds (a ∷ as') sag w ds
  ]

  pub expand_if-Expanded :
      (alerts : List Alert) (sag : Graph) (w : Watchlist) (ms : List (Member Value))
      (ds : DataStore Value) (live : AreLive ds w.members)
      → Reads (member_at ds) sag.vertices ms
      → IsDistinct sag.vertices
      → AreExpandable d ch rounds w ds live alerts
      → After ⊥ (Expanded d ch rounds w alerts sag ds) (expand_if alerts sag w ds)
  expand_if-Expanded [] sag w ms ds live reads distinct able =
      ((distinct, λ q. refl), refl, (λ q. refl), (ms, reads))
  expand_if-Expanded (a ∷ as') sag w ms ds live reads distinct able =
      expand_subgraph-Expanded d ch rounds w (a ∷ as') sag ms ds live reads distinct able

  -- Everything that an abort takes back.
  abbrev pub IsIdle : DynamicSubgraphBuilder d → Type 0
  IsIdle b =
      (b.something_is_going_on ≡ false)
      × (b.watchlist.members ≡ [])
      × (b.fault_detection.moving_window ≡ [])
      × (b.fault_detection.alerts ≡ [])
      × (b.sag.vertices ≡ [])

  -- What no round changes.
  abbrev pub HasSameSettings : DynamicSubgraphBuilder d → DynamicSubgraphBuilder d → Type 0
  HasSameSettings b b' =
      (b'.blindspot_interval ≡ b.blindspot_interval)
      × (b'.maximum_cpu_utilisation ≡ b.maximum_cpu_utilisation)
      × (b'.abortion_criteria_threshold ≡ b.abortion_criteria_threshold)
      × (b'.fault_detection.moving_window_size ≡ b.fault_detection.moving_window_size)
      × (b'.watchlist.initial_member_names ≡ b.watchlist.initial_member_names)

  pub HasSameSettings-trans :
      (b b' b'' : DynamicSubgraphBuilder d)
      → HasSameSettings b b'
      → HasSameSettings b' b''
      → HasSameSettings b b''
  HasSameSettings-trans b b' b'' (i, c, t, s, n) (i', c', t', s', n') =
      (i' ∙ i, c' ∙ c, t' ∙ t, s' ∙ s, n' ∙ n)

  reset-cleared :
      (w : Watchlist) (ds : DataStore Value)
      → AreLive ds w.members
      → After ⊥
          (λ r.
            (r.0.members ≡ [])
            × (r.0.initial_member_names ≡ w.initial_member_names)
            × HasSameMembers ds r.1)
          (Watchlist.reset w ds)
  unfolding Watchlist.reset
  reset-cleared w ds live =
      >>=-After ⊥ _ (destroy_all w.members ds) _ (destroy_all-Same w.members ds live)
        (λ ds' same. (refl, refl, same))

  reset-cleared_windows :
      (fd : FaultDetection d) (ds : DataStore Value)
      → HaveMembers d ds fd.moving_window
      → After ⊥
          (λ r.
            (r.0.alerts ≡ fd.alerts)
            × (r.0.moving_window ≡ [])
            × (r.0.moving_window_size ≡ fd.moving_window_size)
            × HasSameMembers ds r.1)
          (FaultDetection.reset d fd ds)
  unfolding FaultDetection.reset
  reset-cleared_windows fd ds live =
      >>=-After ⊥ _ (destroy_window d fd.moving_window ds) _
        (destroy_window-Same d fd.moving_window ds live) (λ ds' same. (refl, refl, refl, same))

  get_emitted_alerts-none :
      (fd : FaultDetection d) (ds : DataStore Value)
      → fd.alerts ≡ []
      → get_emitted_alerts d fd ds ≡ ok (record fd { alerts = [] }, ds, [])
  unfolding get_emitted_alerts FaultDetection.adjust_alerts
  get_emitted_alerts-none fd ds none' = rw none' refl

  reset-cleared_vertices :
      (g : Graph) (ms : List (Member Value)) (ds : DataStore Value)
      → Reads (member_at ds) g.vertices ms
      → After ⊥ (λ r. (r.0.vertices ≡ []) × HasSameMembers ds r.1) (Graph.reset g ds)
  reset-cleared_vertices g ms ds reads =
      reset-After ⊥ (HasSameMembers ds) g ds
        (λ p ds₁ inside same.
          After-map ⊥ _ _ (adjust_counter decrease p ds₁)
            (adjust_counter-Same decrease p ds₁
              (IsLive-same ds ds₁ p same (Reads-IsLive ds g.vertices ms p reads inside)))
            (λ ds₂ same' q. same' q ∙ same q))
        (λ q. refl)

  pub abort-IsIdle :
      (b : DynamicSubgraphBuilder d) (ds : DataStore Value) (ms : List (Member Value))
      → AreLive ds b.watchlist.members
      → HaveMembers d ds b.fault_detection.moving_window
      → Reads (member_at ds) b.sag.vertices ms
      → b.fault_detection.alerts ≡ []
      → After ⊥
          (λ r.
            IsIdle r.0
            × HasSameSettings b r.0
            × HasSameMembers ds r.1
            × (r.2 ≡ [])
            × (r.0.last_nr_alerts ≡ b.last_nr_alerts)
            × (r.0.blind_spot_check_counter ≡ b.blind_spot_check_counter))
          (abort d ch rounds b ds)
  unfolding abort
  abort-IsIdle b ds ms live windows reads none' =
      >>=-After ⊥ _ (Watchlist.reset b.watchlist ds) _ (reset-cleared b.watchlist ds live)
        (λ r (cleared, named, same).
          >>=-After ⊥ _ (FaultDetection.reset d b.fault_detection r.1) _
            (reset-cleared_windows b.fault_detection r.1
              (HaveMembers-same d ds r.1 b.fault_detection.moving_window same windows))
            (λ u (alerts, closed, sized, same').
              >>=-After ⊥ _ (Graph.reset b.sag u.1) _
                (reset-cleared_vertices b.sag ms u.1 (
                  Reads-same r.1 u.1 b.sag.vertices ms same'
                    (Reads-same ds r.1 b.sag.vertices ms same reads)))
                (λ g (gone, same''). rw (get_emitted_alerts-none u.0 g.1 (alerts ∙ none')) (
                  (refl, cleared, closed, refl, gone),
                  (refl, refl, refl, sized, named),
                  (λ q. same'' q ∙ (same' q ∙ same q)),
                  refl,
                  refl,
                  refl,
                ))))
