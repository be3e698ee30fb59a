-- ===== src/DynamicSubgraph/Sound/Round.antt =====
-- A whole round of the main loop of dynamic-subgraph.cpp keeps the builder's state sound.
use stream_fdl.Prelude.{
  ℕ, ◌≡◌, sym, ap, subst, Bool, true, false, ◌&&◌, List, [], ◌∷◌, ◌++◌, ◌==◌, if◌then◌else◌, length,
  Outcome, ok, ◌>>=◌, >>=-eq-ok, ok-injective,
}
use stream_fdl.Prelude.Double.{Double}
use stream_fdl.Graph.{Graph}
use stream_fdl.Graph.Vertices.{IsDistinct}
use stream_fdl.GraphView.{get_updates}
use stream_fdl.GraphView.Full.{QueryResult}
use stream_fdl.DataStore.{Channel, DataStore}
use stream_fdl.DataStore.Lookup.{NewIsValid}
use stream_fdl.Watchlist.{Watchlist}
use stream_fdl.Watchlist.Runs.{IsSingle}
use stream_fdl.FaultDetection.{Alert, get_emitted_alerts}
use stream_fdl.FaultDetection.Windows.{IsSingleWindow}
use stream_fdl.DynamicSubgraph.{
  DynamicSubgraphBuilder, expand_subgraph, watch_updates, blind_spot_check, next_check,
  check_abort_criteria, abort, destroy_alerts, run_round,
}
use stream_fdl.DynamicSubgraph.Watching.{expand_subgraph-IsSingle, blind_spot_check-IsSingle}
use stream_fdl.DynamicSubgraph.Expansion.{expand_subgraph-IsDistinct, watch_updates-same}
use stream_fdl.DynamicSubgraph.Sound.{
  IsSound, next_check-<, check_abort_criteria-IsSound, get_emitted_alerts-windows, abort-IsSound,
}

module _ (d : Double) (ch : Channel d.Value) (rounds : ℕ) (valid : NewIsValid ch) where
  blind_spot_check_if-IsSingle :
      (due : Bool) (q : QueryResult) (w w' : Watchlist) (ds ds' : DataStore d.Value)
      → IsSingle w.members
      → (if due then blind_spot_check d ch rounds q w ds else ok (w, ds)) ≡ ok (w', ds')
      → IsSingle w'.members
  blind_spot_check_if-IsSingle true q w w' ds ds' s h =
      blind_spot_check-IsSingle d ch rounds valid q w w' ds ds' s h
  blind_spot_check_if-IsSingle false q w w' ds ds' s h =
      subst IsSingle (ap (λ o. o.0.members) (ok-injective h)) s

  abbrev expand_if :
      List Alert
      → Graph
      → Watchlist
      → DataStore d.Value
      → Outcome (Graph × Watchlist × DataStore d.Value)
  expand_if emitted sag w ds = elim emitted [
    | [] ↦ ok (sag, w, ds)
    | a ∷ as' ↦ expand_subgraph d ch rounds (a ∷ as') sag w ds
  ]

  expand_if-IsSingle :
      (emitted : List Alert) (sag sag' : Graph) (w w' : Watchlist) (ds ds' : DataStore d.Value)
      → IsSingle w.members
      → IsDistinct sag.vertices
      → expand_if emitted sag w ds ≡ ok (sag', w', ds')
      → IsSingle w'.members × IsDistinct sag'.vertices
  expand_if-IsSingle [] sag sag' w w' ds ds' s distinct h = (
    subst IsSingle (ap (λ o. o.1.members) (ok-injective h)) s,
    subst IsDistinct (ap (λ o. o.0.vertices) (ok-injective h)) distinct,
  )
  expand_if-IsSingle (a ∷ as') sag sag' w w' ds ds' s distinct h = (
    expand_subgraph-IsSingle d ch rounds valid (a ∷ as') sag sag' w w' ds ds' s h,
    (expand_subgraph-IsDistinct d ch rounds (a ∷ as') sag sag' w w' ds ds' distinct h).0,
  )

  abbrev abort_if :
      Bool
      → DynamicSubgraphBuilder d
      → DataStore d.Value
      → List Alert
      → Outcome (DynamicSubgraphBuilder d × DataStore d.Value × List Alert)
  abort_if aborted b ds emitted =
      if aborted
      then (do (b'', ds', last) ← abort d ch rounds b ds; ok (b'', ds', emitted ++ last))
      else ok (b, ds, emitted)

  abort_if-IsSound :
      (aborted : Bool) (b b' : DynamicSubgraphBuilder d) (ds ds' : DataStore d.Value)
      (emitted out : List Alert)
      → IsSound d b
      → abort_if aborted b ds emitted ≡ ok (b', ds', out)
      → IsSound d b'
  abort_if-IsSound false b b' ds ds' emitted out sound h =
      subst (IsSound d) (ap (λ o. o.0) (ok-injective h)) sound
  abort_if-IsSound true b b' ds ds' emitted out sound h =
      let ((b'', ds₅, last), run, kept) = >>=-eq-ok (abort d ch rounds b ds) _ h in
      subst (IsSound d) (ap (λ o. o.0) (ok-injective kept))
        (abort-IsSound d ch rounds valid b b'' ds ds₅ last sound run)

  -- The end of a round.
  abbrev finish :
      Bool
      → DynamicSubgraphBuilder d
      → DataStore d.Value
      → List Alert
      → Outcome (DynamicSubgraphBuilder d × DataStore d.Value × List Alert)
  finish aborted b ds emitted = do
    (b', ds', handled) ← abort_if aborted b ds emitted
    ds'' ← destroy_alerts d handled ds'
    ok (b', ds'', handled)

  finish-IsSound :
      (aborted : Bool) (b b' : DynamicSubgraphBuilder d) (ds ds' : DataStore d.Value)
      (emitted out : List Alert)
      → IsSound d b
      → finish aborted b ds emitted ≡ ok (b', ds', out)
      → IsSound d b'
  finish-IsSound aborted b b' ds ds' emitted out sound h =
      let ((b₁, ds₁, handled), ran, h₁) = >>=-eq-ok (abort_if aborted b ds emitted) _ h in
      let (ds₂, destroyed, kept) = >>=-eq-ok (destroy_alerts d handled ds₁) _ h₁ in
      subst (IsSound d) (ap (λ o. o.0) (ok-injective kept))
        (abort_if-IsSound aborted b b₁ ds ds₁ emitted handled sound ran)

  pub run_round-IsSound :
      (cpu : d.Value) (q : QueryResult) (b b' : DynamicSubgraphBuilder d)
      (ds ds' : DataStore d.Value) (out : List Alert)
      → IsSound d b
      → run_round d ch rounds cpu q b ds ≡ ok (b', ds', out)
      → IsSound d b'
  unfolding run_round
  run_round-IsSound cpu q b b' ds ds' out sound h =
      let due = b.blind_spot_check_counter == 0 && d.lt cpu b.maximum_cpu_utilisation in
      let ((w₁, ds₁), r₁, h₁) =
        >>=-eq-ok
          (if due then blind_spot_check d ch rounds q b.watchlist ds else ok (b.watchlist, ds)) _
          h in
      let s₁ = blind_spot_check_if-IsSingle due q b.watchlist w₁ ds ds₁ sound.watching r₁ in
      let (counter, r₂, h₂) =
        >>=-eq-ok (next_check b.blindspot_interval b.blind_spot_check_counter) _ h₁ in
      let (updates, pending) = get_updates ds₁.updates in
      let ((w₂, ds₂), r₃, h₃) =
        >>=-eq-ok (watch_updates d ch rounds updates b.sag w₁ (record ds₁ { updates = pending })) _
          h₂ in
      let (same, kept) =
        watch_updates-same d ch rounds updates b.sag w₁ w₂ (record ds₁ { updates = pending }) ds₂
          r₃ in
      let s₂ : IsSingle w₂.members = subst IsSingle (ap Watchlist.members (sym same)) s₁ in
      let ((fd, ds₃, emitted), r₄, h₄) =
        >>=-eq-ok (get_emitted_alerts d b.fault_detection ds₂) _ h₃ in
      let ((sag, w₃, ds₄), r₅, h₅) = >>=-eq-ok (expand_if emitted b.sag w₂ ds₃) _ h₄ in
      let (s₃, distinct) =
        expand_if-IsSingle emitted b.sag sag w₂ w₃ ds₃ ds₄ s₂ sound.distinct r₅ in
      let expanded = record b {
        watchlist = w₃;
        fault_detection = fd;
        sag = sag;
        blind_spot_check_counter = counter;
      } in
      let ((b₁, aborted), r₆, h₆) =
        >>=-eq-ok (check_abort_criteria d (length emitted) expanded) _ h₅ in
      finish-IsSound aborted b₁ b' ds₄ ds' emitted out
        (check_abort_criteria-IsSound d (length emitted) expanded b₁ aborted
          record {
            distinct = distinct;
            counting = next_check-< b.blindspot_interval b.blind_spot_check_counter counter r₂;
            watching = s₃;
            windows =
                subst (IsSingleWindow d)
                  (get_emitted_alerts-windows d b.fault_detection fd ds₂ ds₃ emitted r₄)
                  sound.windows;
          }
          r₆)
        h₆
