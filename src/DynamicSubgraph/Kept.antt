-- ===== src/DynamicSubgraph/Kept.antt =====
-- What a round of the main loop of dynamic-subgraph.cpp keeps of the store.
use stream_fdl.Prelude.{
  ℕ, Bool, true, false, ◌&&◌, none, some, List, [], ◌∷◌, ◌++◌, ◌==◌, if◌then◌else◌, length,
  dangling, Outcome, ok, fault, ◌>>=◌,
}
use stream_fdl.Prelude.After.{Any, After, >>=-After, if-After, Outcome-After}
use stream_fdl.Prelude.Double.{Double}
use stream_fdl.MemberPtr.{MemberPtr}
use stream_fdl.Members.{Proxies}
use stream_fdl.Graph
use stream_fdl.Graph.{Graph, get_incoming}
use stream_fdl.Graph.Vertices.{add-After, reset-After}
use stream_fdl.GraphView.{GraphView, get_updates}
use stream_fdl.GraphView.Full.{QueryResult, get_full_graph_view}
use stream_fdl.Blindspots.{get_blindspots}
use stream_fdl.AtomicCounter.{increase, decrease}
use stream_fdl.DataStore.{
  adjust_counter, Channel, DataStore, member_at, check_topic_primary_ignored,
}
use stream_fdl.DataStore.Kept.{IsKept}
use stream_fdl.Watchlist
use stream_fdl.Watchlist.{Watchlist, WatchlistMemberType, normal, blindspot, add_member}
use stream_fdl.Watchlist.Kept.{add_member-After}
use stream_fdl.FaultDetection
use stream_fdl.FaultDetection.{Alert, get_emitted_alerts}
use stream_fdl.FaultDetection.Kept.{get_emitted_alerts-After}
use stream_fdl.DynamicSubgraph.{
  DynamicSubgraphBuilder, next_check, check_abort_criteria, add_members, blind_spot_check,
  add_incoming, expand_loop, expand_subgraph, watch_connections, watch_updates, abort,
  destroy_alerts, run_round,
}

module _ (d : Double) (ch : Channel d.Value) (rounds : ℕ) (I : DataStore d.Value → Type 0)
    (kept : IsKept ch rounds I) where
  add_members-After :
      (ms : Proxies) (t : WatchlistMemberType) (w : Watchlist) (ds : DataStore d.Value)
      → I ds
      → After Any (λ r. I r.1) (add_members d ch rounds ms t w ds)
  unfolding add_members
  add_members-After [] t w ds i = i
  add_members-After (m ∷ ms) t w ds i =
      >>=-After Any _ (add_member ch rounds m t w ds) _
        (add_member-After ch rounds I kept m t w ds i) (λ r i'. add_members-After ms t r.0 r.1 i')

  blind_spot_check-After :
      (q : QueryResult) (w : Watchlist) (ds : DataStore d.Value)
      → I ds
      → After Any (λ r. I r.1) (blind_spot_check d ch rounds q w ds)
  unfolding blind_spot_check
  blind_spot_check-After q w ds i =
      >>=-After Any _ (get_full_graph_view (check_topic_primary_ignored ds) q) _ (Outcome-After _)
        (λ full_graph _.
          >>=-After Any _ (get_blindspots full_graph) _ (Outcome-After _)
            (λ spots _. add_members-After spots blindspot w ds i))

  add_incoming-After :
      (added : Bool) (p : MemberPtr) (sag : Graph) (w : Watchlist) (ds : DataStore d.Value)
      → I ds
      → After Any (λ r. I r.1) (add_incoming d ch rounds added p sag w ds)
  unfolding add_incoming
  add_incoming-After false p sag w ds i = i
  add_incoming-After true p sag w ds i =
      >>=-After Any _ (elim (member_at ds p) [ none ↦ fault dangling | some m ↦ ok m ]) _
        (Outcome-After _)
        (λ member _.
          >>=-After Any _ (get_incoming (member_at ds) sag member) _ (Outcome-After _)
            (λ incoming _. add_members-After incoming normal w ds i))

  expand_loop-After :
      (alerts : List Alert) (sag : Graph) (w : Watchlist) (ds : DataStore d.Value)
      → I ds
      → After Any (λ r. I r.2) (expand_loop d ch rounds alerts sag w ds)
  unfolding expand_loop
  expand_loop-After [] sag w ds i = i
  expand_loop-After (a ∷ alerts) sag w ds i =
      >>=-After Any _ (Graph.add a.member sag ds) _
        (add-After Any I a.member sag ds i (kept.counting increase a.member ds i))
        (λ g (is, fresh, i₁).
          >>=-After Any _ (add_incoming d ch rounds g.2 a.member g.0 w g.1) _
            (add_incoming-After g.2 a.member g.0 w g.1 i₁)
            (λ r i₂. expand_loop-After alerts g.0 r.0 r.1 i₂))

  -- The graph grows only where there are alerts.
  abbrev expand_if :
      List Alert
      → Graph
      → Watchlist
      → DataStore d.Value
      → Outcome (Graph × Watchlist × DataStore d.Value)
  expand_if emitted sag w ds = elim emitted [
    | [] ↦ ok (sag, w, ds)
    | a ∷ as' ↦ expand_subgraph d ch rounds (a ∷ as') sag w ds
  ]

  expand_if-After :
      (emitted : List Alert) (sag : Graph) (w : Watchlist) (ds : DataStore d.Value)
      → I ds
      → After Any (λ r. I r.2) (expand_if emitted sag w ds)
  unfolding expand_subgraph
  expand_if-After [] sag w ds i = i
  expand_if-After (a ∷ as') sag w ds i =
      >>=-After Any _ (expand_loop d ch rounds (a ∷ as') sag w ds) _
        (expand_loop-After (a ∷ as') sag w ds i) (λ _ i'. i')

  watch_connections-After :
      (ms : Proxies) (w : Watchlist) (ds : DataStore d.Value)
      → I ds
      → After Any (λ r. I r.1) (watch_connections d ch rounds ms w ds)
  unfolding watch_connections
  watch_connections-After [] w ds i = i
  watch_connections-After (m ∷ ms) w ds i =
      >>=-After Any _ (Watchlist.contains m.primary_key w ds) _ (Outcome-After _) (λ known _.
        >>=-After Any _ (if known then ok (w, ds) else add_member ch rounds m normal w ds) _
          (if-After Any (λ r. I r.1) known _ _ i
            (add_member-After ch rounds I kept m normal w ds i))
          (λ r i'. watch_connections-After ms r.0 r.1 i'))

  watch_updates-After :
      (updates : GraphView) (sag : Graph) (w : Watchlist) (ds : DataStore d.Value)
      → I ds
      → After Any (λ r. I r.1) (watch_updates d ch rounds updates sag w ds)
  unfolding watch_updates
  watch_updates-After [] sag w ds i = i
  watch_updates-After (update ∷ updates) sag w ds i =
      >>=-After Any _ (Graph.contains (member_at ds) update.member sag) _ (Outcome-After _)
        (λ inside _.
          >>=-After Any _
            (if inside then watch_connections d ch rounds update.connections w ds else ok (w, ds)) _
            (if-After Any (λ r. I r.1) inside _ _
              (watch_connections-After update.connections w ds i) i)
            (λ r i'. watch_updates-After updates sag r.0 r.1 i'))

  abort-After :
      (b : DynamicSubgraphBuilder d) (ds : DataStore d.Value)
      → I ds
      → After Any (λ r. I r.1) (abort d ch rounds b ds)
  unfolding abort
  abort-After b ds i =
      >>=-After Any _ (Watchlist.reset b.watchlist ds) _
        (Watchlist.Kept.reset-After ch rounds I kept b.watchlist ds i)
        (λ r i₁.
          >>=-After Any _ (FaultDetection.reset d b.fault_detection r.1) _
            (FaultDetection.Kept.reset-After d ch rounds I kept b.fault_detection r.1 i₁)
            (λ s i₂.
              >>=-After Any _ (Graph.reset b.sag s.1) _
                (reset-After Any I b.sag s.1 (λ p ds₁ inside. kept.counting decrease p ds₁) i₂)
                (λ g (cleared, i₃).
                  >>=-After Any _ (get_emitted_alerts d s.0 g.1) _
                    (get_emitted_alerts-After d ch rounds I kept s.0 g.1 i₃) (λ _ i₄. i₄))))

  abort_if-After :
      (aborted : Bool) (b : DynamicSubgraphBuilder d) (ds : DataStore d.Value)
      (emitted : List Alert)
      → I ds
      → After {A = DynamicSubgraphBuilder d × DataStore d.Value × List Alert} Any
          (λ r. I r.1)
          (if aborted
            then (do (b', ds', last) ← abort d ch rounds b ds; ok (b', ds', emitted ++ last))
            else ok (b, ds, emitted))
  abort_if-After aborted b ds emitted i =
      if-After Any (λ r. I r.1) aborted _ _
        (>>=-After Any _ (abort d ch rounds b ds) _ (abort-After b ds i) (λ _ i'. i')) i

  destroy_alerts-After :
      (alerts : List Alert) (ds : DataStore d.Value)
      → I ds
      → After Any I (destroy_alerts d alerts ds)
  unfolding destroy_alerts FaultDetection.adjust_alerts
  destroy_alerts-After [] ds i = i
  destroy_alerts-After (a ∷ alerts) ds i =
      >>=-After Any _ (adjust_counter decrease a.member ds) _ (kept.counting decrease a.member ds i)
        (λ ds' i'. destroy_alerts-After alerts ds' i')

  finish-After :
      (aborted : Bool) (b : DynamicSubgraphBuilder d) (ds : DataStore d.Value)
      (emitted : List Alert)
      → I ds
      → After {A = DynamicSubgraphBuilder d × DataStore d.Value × List Alert} Any
          (λ r. I r.1)
          (do
            (b', ds', handled) ←
                if aborted
                then (do (b₁, ds₁, last) ← abort d ch rounds b ds; ok (b₁, ds₁, emitted ++ last))
                else ok (b, ds, emitted)
            ds'' ← destroy_alerts d handled ds'
            ok (b', ds'', handled))
  finish-After aborted b ds emitted i =
      >>=-After Any _ _ _ (abort_if-After aborted b ds emitted i)
        (λ (r : DynamicSubgraphBuilder d × DataStore d.Value × List Alert) (i₁ : I r.1).
          >>=-After Any _ (destroy_alerts d r.2 r.1) _ (destroy_alerts-After r.2 r.1 i₁)
            (λ ds'' i₂. i₂))

  pub run_round-After :
      (cpu : d.Value) (q : QueryResult) (b : DynamicSubgraphBuilder d) (ds : DataStore d.Value)
      → I ds
      → After Any (λ r. I r.1) (run_round d ch rounds cpu q b ds)
  unfolding run_round
  run_round-After cpu q b ds i =
      let due = b.blind_spot_check_counter == 0 && d.lt cpu b.maximum_cpu_utilisation in
      >>=-After Any _
        (if due then blind_spot_check d ch rounds q b.watchlist ds else ok (b.watchlist, ds)) _
        (if-After Any (λ r. I r.1) due _ _ (blind_spot_check-After q b.watchlist ds i) i)
        (λ r i₁.
          >>=-After Any _ (next_check b.blindspot_interval b.blind_spot_check_counter) _
            (Outcome-After _)
            (λ counter _.
              let taken = get_updates r.1.updates in
              >>=-After Any _
                (watch_updates d ch rounds taken.0 b.sag r.0 (record r.1 { updates = taken.1 })) _
                (watch_updates-After taken.0 b.sag r.0 _ (kept.taken r.1 taken.1 i₁))
                (λ u i₂.
                  >>=-After Any _ (get_emitted_alerts d b.fault_detection u.1) _
                    (get_emitted_alerts-After d ch rounds I kept b.fault_detection u.1 i₂)
                    (λ e i₃.
                      >>=-After Any _ (expand_if e.2 b.sag u.0 e.1) _
                        (expand_if-After e.2 b.sag u.0 e.1 i₃)
                        (λ x i₄.
                          >>=-After Any _ (check_abort_criteria d (length e.2) _) _
                            (Outcome-After _) (λ c _. finish-After c.1 c.0 x.2 e.2 i₄))))))
