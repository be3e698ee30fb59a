-- ===== src/DynamicSubgraph/Turn/Ending.antt =====
-- How a round of the main loop of dynamic-subgraph.cpp ends, by the abort criteria.
use stream_fdl.Prelude.{
  ℕ, ◌≤◌, ◌≡◌, sym, ap, ◌∙◌, ◌⊎◌, inl, inr, Bool, true, false, ◌&&◌, ◌||◌, List, [], ◌++◌,
  if◌then◌else◌, length, Outcome, ok, ◌>>=◌,
}
use mathlib.Core.List.{append-nil}
use stream_fdl.Prelude.After.{After, >>=-After}
use stream_fdl.Prelude.Double.{Double}
use stream_fdl.CircularBuffer.Statistics.{get_mean}
use stream_fdl.Members.{Member}
use stream_fdl.Graph.Edges.{Reads}
use stream_fdl.AtomicCounter.{decrease}
use stream_fdl.DataStore.{Channel, DataStore, member_at}
use stream_fdl.DataStore.Live.{HasSameMembers}
use stream_fdl.Watchlist.Adding.{AreLive}
use stream_fdl.FaultDetection.{Alert}
use stream_fdl.FaultDetection.Delivery
use stream_fdl.FaultDetection.Delivery.{get_emitted_alerts-all, adjust_alerts-HasSameMembers}
use stream_fdl.DynamicSubgraph.{DynamicSubgraphBuilder, next_check, abort, destroy_alerts}
use stream_fdl.DynamicSubgraph.Growth.{Grown}
use stream_fdl.DynamicSubgraph.Turn.{HaveMembers}
use stream_fdl.DynamicSubgraph.Turn.Steps.{
  HasSameSettings, HasSameSettings-trans, IsIdle, abort-IsIdle,
}

module _ (d : Double) (ch : Channel d.Value) (rounds : ℕ) where
  open d use {Value, lt, le}

  -- A round that goes on: what was watched stays watched, and the graph takes in the alerts.
  abbrev pub Continued : DynamicSubgraphBuilder d → DynamicSubgraphBuilder d → Value → Type 0
  Continued b b' mean =
      (b'.something_is_going_on
        ≡ (b.something_is_going_on || lt b.abortion_criteria_threshold mean))
      × (b'.watchlist ≡ b.watchlist)
      × (b'.fault_detection ≡ record b.fault_detection { alerts = [] })
      × Grown d ch rounds b.watchlist b.fault_detection.alerts b.sag b'.sag

  -- What a round does: it gets the pending alerts, moves the counter, keeps the members and the
  -- settings, and ends or goes on by the mean of the numbers of alerts.
  abbrev pub Turned :
      DynamicSubgraphBuilder d
      → DataStore Value
      → DynamicSubgraphBuilder d × DataStore Value × List Alert
      → Type 0
  Turned b ds (b', ds', out) =
      (out ≡ b.fault_detection.alerts)
      × (next_check b.blindspot_interval b.blind_spot_check_counter
          ≡ ok b'.blind_spot_check_counter)
      × HasSameMembers ds ds'
      × HasSameSettings d ch rounds b b'
      × b'.last_nr_alerts.current ≤ length b'.last_nr_alerts.buffer
      × ((mean : Value) × (get_mean d b'.last_nr_alerts ≡ ok mean)
          × (((b.something_is_going_on && le mean b.abortion_criteria_threshold) ≡ true)
                × IsIdle d ch rounds b'
              ⊎ ((b.something_is_going_on && le mean b.abortion_criteria_threshold) ≡ false)
                × Continued b b' mean))

  abbrev pub ending :
      Bool
      → DynamicSubgraphBuilder d
      → DataStore Value
      → List Alert
      → Outcome (DynamicSubgraphBuilder d × DataStore Value × List Alert)
  ending over b ds emitted =
      if over
      then (do (b₁, ds₁, last) ← abort d ch rounds b ds; ok (b₁, ds₁, emitted ++ last))
      else ok (b, ds, emitted)

  pub ended :
      (over : Bool) (b b₁ : DynamicSubgraphBuilder d) (ds ds₁ : DataStore Value)
      (ms : List (Member Value)) (emitted : List Alert) (mean : Value)
      → (b.something_is_going_on && le mean b.abortion_criteria_threshold) ≡ over
      → emitted ≡ b.fault_detection.alerts
      → next_check b.blindspot_interval b.blind_spot_check_counter ≡ ok b₁.blind_spot_check_counter
      → HasSameMembers ds ds₁
      → HasSameSettings d ch rounds b b₁
      → b₁.last_nr_alerts.current ≤ length b₁.last_nr_alerts.buffer
      → get_mean d b₁.last_nr_alerts ≡ ok mean
      → AreLive ds₁ b₁.watchlist.members
      → HaveMembers d ds₁ b₁.fault_detection.moving_window
      → Reads (member_at ds₁) b₁.sag.vertices ms
      → b₁.fault_detection.alerts ≡ []
      → Continued b b₁ mean
      → After ⊥ (Turned b ds) (ending over b₁ ds₁ emitted)
  ended true b b₁ ds ds₁ ms emitted mean over out counted same set inside averaged live windows
        reads none' going =
      >>=-After ⊥ (Turned b ds) (abort d ch rounds b₁ ds₁) _
        (abort-IsIdle d ch rounds b₁ ds₁ ms live windows reads none')
        (λ r (idle, set', same', nothing, buffer, counter). (
          ap (λ last. emitted ++ last) nothing ∙ append-nil emitted ∙ out,
          counted ∙ ap ok (sym counter),
          (λ q. same' q ∙ same q),
          HasSameSettings-trans d ch rounds b b₁ r.0 set set',
          rw buffer inside,
          (mean, ap (get_mean d) buffer ∙ averaged, inl (over, idle)),
        ))
  ended false b b₁ ds ds₁ ms emitted mean over out counted same set inside averaged live windows
        reads none' going =
      (out, counted, same, set, inside, (mean, averaged, inr (over, going)))

  -- The alerts that were handled go at the end of the round.
  pub finished :
      (b : DynamicSubgraphBuilder d) (ds : DataStore Value)
      (o : Outcome (DynamicSubgraphBuilder d × DataStore Value × List Alert))
      → Delivery.AreLive ds b.fault_detection.alerts
      → After ⊥ (Turned b ds) o
      → After ⊥
          (Turned b ds)
          (do (b', ds', handled) ← o; ds'' ← destroy_alerts d handled ds'; ok (b', ds'', handled))
  unfolding destroy_alerts
  finished b ds o live turned =
      >>=-After ⊥ (Turned b ds) o _ turned (λ r (out, counted, same, set, inside, rest).
        let (ds'', done, same') =
          adjust_alerts-HasSameMembers d decrease r.2 r.1
            (rw out (Delivery.AreLive-same ds r.1 b.fault_detection.alerts same live)) in
        rw done (out, counted, (λ q. same' q ∙ same q), set, inside, rest))
