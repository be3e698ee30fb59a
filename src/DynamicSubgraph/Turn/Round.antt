-- ===== src/DynamicSubgraph/Turn/Round.antt =====
-- A whole round of the main loop of dynamic-subgraph.cpp, where no check for blind spots is due.
use stream_fdl.Prelude.{
  ℕ, ◌+◌, ◌%◌, ◌^◌, ◌≤◌, ◌<◌, ◌≡◌, refl, ◌∙◌, false, ◌&&◌, ◌||◌, List, [], arith, ◌==◌, length, ok,
}
use stream_fdl.Prelude.After.{After, After-returns, >>=-After}
use stream_fdl.Prelude.Double.{Double}
use stream_fdl.Members.{Member}
use stream_fdl.Graph.Vertices.{IsDistinct}
use stream_fdl.Graph.Edges.{Reads}
use stream_fdl.GraphView.{get_updates}
use stream_fdl.GraphView.Full.{QueryResult}
use stream_fdl.DataStore.{Channel, DataStore, member_at}
use stream_fdl.DataStore.Live.{HasSameMembers}
use stream_fdl.Watchlist.Adding.{AreLive}
use stream_fdl.FaultDetection.{Alert}
use stream_fdl.FaultDetection.Delivery
use stream_fdl.FaultDetection.Delivery.{get_emitted_alerts-all, adjust_alerts-HasSameMembers}
use stream_fdl.DynamicSubgraph.{DynamicSubgraphBuilder, next_check, run_round}
use stream_fdl.DynamicSubgraph.Same.{AreLive-same, Reads-same}
use stream_fdl.DynamicSubgraph.Unwatched.{watch_updates-unchanged, AreExpandable}
use stream_fdl.DynamicSubgraph.Growth.{AreExpandable-same}
use stream_fdl.DynamicSubgraph.Turn.{HaveMembers, HaveMembers-same, check_abort_criteria-decides}
use stream_fdl.DynamicSubgraph.Turn.Steps.{expand_if, expand_if-Expanded}
use stream_fdl.DynamicSubgraph.Turn.Ending.{Turned, ending, ended, finished}

next_check-ok :
    (interval counter : ℕ) → 0 < interval → (next : ℕ) × (next_check interval counter ≡ ok next)
unfolding next_check
next_check-ok interval counter positive =
    ((counter + 1) % 2 ^ 64 % interval, rw (positive_ne interval positive) refl)
  where
    positive_ne : (interval : ℕ) → 0 < interval → (interval == 0) ≡ false
    positive_ne interval positive = ground arith

module _ (d : Double) (ch : Channel d.Value) (rounds : ℕ) where
  open d use {Value, lt, le}

  -- The state before a round: no check for blind spots is due, the interval and the buffer are
  -- usable, each handle points at a member, and what is before the members of the alerts is not on
  -- the watchlist.
  pub record IsCalm (cpu : Value) (b : DynamicSubgraphBuilder d) (ds : DataStore Value)
      : Type 0 where
    pub not_due : (b.blind_spot_check_counter == 0 && lt cpu b.maximum_cpu_utilisation) ≡ false
    pub positive : 0 < b.blindspot_interval
    pub inside : b.last_nr_alerts.current ≤ length b.last_nr_alerts.buffer
    pub watched : AreLive ds b.watchlist.members
    pub windows : HaveMembers d ds b.fault_detection.moving_window
    pub alerts : Delivery.AreLive ds b.fault_detection.alerts
    pub members : List (Member Value)
    pub vertices : Reads (member_at ds) b.sag.vertices members
    pub distinct : IsDistinct b.sag.vertices
    pub expandable : AreExpandable d ch rounds b.watchlist ds watched b.fault_detection.alerts

  run_round-Turned :
      (cpu : Value) (q : QueryResult) (b : DynamicSubgraphBuilder d) (ds : DataStore Value)
      → IsCalm cpu b ds
      → After ⊥ (Turned d ch rounds b ds) (run_round d ch rounds cpu q b ds)
  unfolding run_round
  run_round-Turned cpu q b ds calm =
      let (next, counted) =
        next_check-ok b.blindspot_interval b.blind_spot_check_counter calm.positive in
      let (updates, pending) = get_updates ds.updates in
      let taken = record ds { updates = pending } in
      let watched₁ = AreLive-same ds taken b.watchlist.members (λ p. refl) calm.watched in
      let (ds₂, emitted, same) =
        get_emitted_alerts-all d b.fault_detection taken
          (Delivery.AreLive-same ds taken b.fault_detection.alerts (λ p. refl) calm.alerts) in
      let watched₂ = AreLive-same ds ds₂ b.watchlist.members same calm.watched in
      rw
        (
          calm.not_due,
          counted,
          watch_updates-unchanged d ch rounds b.watchlist taken watched₁ updates b.sag calm.members
              calm.vertices,
          emitted,
        )
        (>>=-After ⊥ (Turned d ch rounds b ds)
          (expand_if d ch rounds b.fault_detection.alerts b.sag b.watchlist ds₂) _
          (expand_if-Expanded d ch rounds b.fault_detection.alerts b.sag b.watchlist calm.members
            ds₂ watched₂ (Reads-same ds ds₂ b.sag.vertices calm.members same calm.vertices)
            calm.distinct
            (AreExpandable-same d ch rounds b.watchlist ds ds₂ calm.watched watched₂ same
              b.fault_detection.alerts calm.expandable))
          (λ x (grown, kept, same', (ms, reads)).
            let same₃ : HasSameMembers ds x.2 = λ p. same' p ∙ same p in
            let expanded = record b {
              watchlist = b.watchlist;
              fault_detection = record b.fault_detection { alerts = [] };
              sag = x.0;
              blind_spot_check_counter = next;
            } in
            let (c, mean, averaged, inside', decided) =
              check_abort_criteria-decides d (length b.fault_detection.alerts) expanded
                calm.inside in
            rw (kept, decided)
              (finished d ch rounds b ds
                (ending d ch rounds
                  (b.something_is_going_on && le mean b.abortion_criteria_threshold)
                  (record expanded {
                    last_nr_alerts = c;
                    something_is_going_on =
                        b.something_is_going_on || lt b.abortion_criteria_threshold mean;
                  })
                  x.2 b.fault_detection.alerts)
                calm.alerts
                (ended d ch rounds
                  (b.something_is_going_on && le mean b.abortion_criteria_threshold) b
                  (record expanded {
                    last_nr_alerts = c;
                    something_is_going_on =
                        b.something_is_going_on || lt b.abortion_criteria_threshold mean;
                  })
                  ds x.2 ms b.fault_detection.alerts mean refl refl counted same₃
                  (refl, refl, refl, refl, refl) inside' averaged
                  (AreLive-same ds x.2 b.watchlist.members same₃ calm.watched)
                  (HaveMembers-same d ds x.2 b.fault_detection.moving_window same₃ calm.windows)
                  reads refl (refl, refl, refl, grown)))))

  pub run_round-outcome :
      (cpu : Value) (q : QueryResult) (b : DynamicSubgraphBuilder d) (ds : DataStore Value)
      → IsCalm cpu b ds
      → (b' : DynamicSubgraphBuilder d) × (ds' : DataStore Value) × (out : List Alert) × (run_round
            d ch rounds cpu q b ds
          ≡ ok (b', ds', out))
        × Turned d ch rounds b ds (b', ds', out)
  run_round-outcome cpu q b ds calm =
      let ((b', ds', out), ran, turned) =
        After-returns (Turned d ch rounds b ds) (run_round d ch rounds cpu q b ds)
          (run_round-Turned cpu q b ds calm) in
      (b', ds', out, ran, turned)
