-- ===== src/DynamicSubgraph.antt =====
-- src/dynamic-subgraph/dynamic-subgraph.{hpp,cpp}: the main loop of the subgraph builder, without
-- the sleep at its end and the threads. The search for blind spots is in Blindspots.antt. What the
-- message queues and the shared memory deliver in a round are arguments.
pub mod Abort
pub mod Expansion
pub mod Same
pub mod Unwatched
pub mod Growth
pub mod Watching
pub mod Spots
pub mod Kept
pub mod Sound
pub mod Turn
pub mod Start
use stream_fdl.Prelude.{
  ℕ, ◌+◌, ◌%◌, ◌^◌, Bool, true, false, not, ◌&&◌, none, some, List, [], ◌∷◌, ◌++◌, ◌==◌,
  if◌then◌else◌, length, dangling, division_by_zero, Outcome, ok, fault, ◌>>=◌,
}
use stream_fdl.Prelude.Double.{Double}
use stream_fdl.CircularBuffer.{CircularBuffer, push}
use stream_fdl.CircularBuffer.Statistics.{get_mean}
use stream_fdl.MemberPtr.{MemberPtr}
use stream_fdl.Members.{MemberProxy, Proxies}
use stream_fdl.Graph
use stream_fdl.Graph.{Graph, get_incoming, request_visualisation}
use stream_fdl.GraphView.{MemberConnections, GraphView, get_updates}
use stream_fdl.GraphView.Full.{QueryResult, get_full_graph_view}
use stream_fdl.Blindspots.{get_blindspots}
use stream_fdl.AtomicCounter.{decrease}
use stream_fdl.DataStore.{
  Channel, DataStore, member_at, adjust_counter, check_topic_primary_ignored,
}
use stream_fdl.Watchlist
use stream_fdl.Watchlist.{Watchlist, WatchlistMemberType, normal, blindspot, add_member}
use stream_fdl.FaultDetection
use stream_fdl.FaultDetection.{Alert, FaultDetection, adjust_alerts, get_emitted_alerts}

-- `(mBlindSpotCheckCounter + 1) % cmBlindspotInterval` on `size_t`.
unfoldable pub next_check : (interval counter : ℕ) → Outcome ℕ
next_check interval counter =
    if interval == 0 then fault division_by_zero else ok ((counter + 1) % 2 ^ 64 % interval)

module _ (d : Double) where
  open d use {Value, of_ℕ, lt, le}

  pub record DynamicSubgraphBuilder : Type 0 where
    pub watchlist : Watchlist
    pub fault_detection : FaultDetection d
    pub sag : Graph
    pub something_is_going_on : Bool
    pub last_nr_alerts : CircularBuffer Value
    pub blind_spot_check_counter : ℕ
    pub blindspot_interval : ℕ
    pub abortion_criteria_threshold : Value
    pub maximum_cpu_utilisation : Value

  -- `checkAbortCirteria`: of the new alerts, only the number is used.
  unfoldable pub check_abort_criteria :
      ℕ → DynamicSubgraphBuilder → Outcome (DynamicSubgraphBuilder × Bool)
  check_abort_criteria nr_new_alerts b = do
    (alerts, it) ← push b.last_nr_alerts (of_ℕ nr_new_alerts)
    mean ← get_mean d alerts
    let pushed = record b { last_nr_alerts = alerts }
    if not b.something_is_going_on
        then ok (
          if lt b.abortion_criteria_threshold mean
              then record pushed { something_is_going_on = true }
              else pushed,
          false,
        )
        else ok (pushed, le mean b.abortion_criteria_threshold)

  -- The end of the scope of `emittedAlerts`, into which the last alerts were moved: each handle is
  -- destroyed.
  unfoldable pub destroy_alerts : List Alert → DataStore Value → Outcome (DataStore Value)
  destroy_alerts alerts ds = adjust_alerts d (λ ds' p. adjust_counter decrease p ds') alerts ds

  module _ (ch : Channel Value) (rounds : ℕ) where
    -- The calls of `mWatchlist.addMember` for a list of members.
    unfoldable pub add_members :
        Proxies
        → WatchlistMemberType
        → Watchlist
        → DataStore Value
        → Outcome (Watchlist × DataStore Value)
    add_members [] t w ds = ok (w, ds)
    add_members (member ∷ members) t w ds = do
      (w', ds') ← add_member ch rounds member t w ds
      add_members members t w' ds'

    -- `blindSpotCheck`; `q` is the reply to the query for the full graph.
    unfoldable pub blind_spot_check :
        QueryResult → Watchlist → DataStore Value → Outcome (Watchlist × DataStore Value)
    blind_spot_check q w ds = do
      full_graph ← get_full_graph_view (check_topic_primary_ignored ds) q
      potential_blind_spots ← get_blindspots full_graph
      add_members potential_blind_spots blindspot w ds

    -- The branch of `expandSubgraph` for one alert, by what `mSAG.add` returned.
    unfoldable pub add_incoming :
        Bool
        → MemberPtr
        → Graph
        → Watchlist
        → DataStore Value
        → Outcome (Watchlist × DataStore Value)
    add_incoming false p sag w ds = ok (w, ds)
    add_incoming true p sag w ds = do
      member ← (elim (member_at ds p) [ none ↦ fault dangling | some m ↦ ok m ])
      incoming ← get_incoming (member_at ds) sag member
      add_members incoming normal w ds

    unfoldable pub expand_loop :
        List Alert
        → Graph
        → Watchlist
        → DataStore Value
        → Outcome (Graph × Watchlist × DataStore Value)
    expand_loop [] sag w ds = ok (sag, w, ds)
    expand_loop (alert ∷ alerts) sag w ds = do
      (sag', ds₁, added) ← Graph.add alert.member sag ds
      (w', ds₂) ← add_incoming added alert.member sag' w ds₁
      expand_loop alerts sag' w' ds₂

    -- `expandSubgraph`.
    unfoldable pub expand_subgraph :
        List Alert
        → Graph
        → Watchlist
        → DataStore Value
        → Outcome (Graph × Watchlist × DataStore Value)
    expand_subgraph alerts sag w ds = do
      (sag', w', ds') ← expand_loop alerts sag w ds
      ok (request_visualisation sag', w', ds')

    -- The inner loop over the connections of an update.
    unfoldable pub watch_connections :
        Proxies → Watchlist → DataStore Value → Outcome (Watchlist × DataStore Value)
    watch_connections [] w ds = ok (w, ds)
    watch_connections (member ∷ members) w ds = do
      known ← Watchlist.contains member.primary_key w ds
      (w', ds') ← if known then ok (w, ds) else add_member ch rounds member normal w ds
      watch_connections members w' ds'

    -- The loop over the updates.
    unfoldable pub watch_updates :
        GraphView → Graph → Watchlist → DataStore Value → Outcome (Watchlist × DataStore Value)
    watch_updates [] sag w ds = ok (w, ds)
    watch_updates (update ∷ updates) sag w ds = do
      inside ← Graph.contains (member_at ds) update.member sag
      (w', ds') ← if inside then watch_connections update.connections w ds else ok (w, ds)
      watch_updates updates sag w' ds'

    -- What happens when the abortion criteria are reached; the last alerts are taken, too.
    unfoldable pub abort :
        DynamicSubgraphBuilder
        → DataStore Value
        → Outcome (DynamicSubgraphBuilder × DataStore Value × List Alert)
    abort b ds = do
      (w, ds₁) ← Watchlist.reset b.watchlist ds
      (fd, ds₂) ← FaultDetection.reset d b.fault_detection ds₁
      (sag, ds₃) ← Graph.reset b.sag ds₂
      (fd', ds₄, last) ← get_emitted_alerts d fd ds₃
      ok (
        record b { something_is_going_on = false; watchlist = w; fault_detection = fd'; sag = sag },
        ds₄,
        last,
      )

    -- One round of `run`, with the alerts that it had got, whose handles are gone by then.
    unfoldable pub run_round :
        (cpu_utilisation : Value) (q : QueryResult)
        → DynamicSubgraphBuilder
        → DataStore Value
        → Outcome (DynamicSubgraphBuilder × DataStore Value × List Alert)
    run_round cpu_utilisation q b ds = do
      (w₁, ds₁) ←
          if b.blind_spot_check_counter == 0 && lt cpu_utilisation b.maximum_cpu_utilisation
          then blind_spot_check q b.watchlist ds
          else ok (b.watchlist, ds)
      counter ← next_check b.blindspot_interval b.blind_spot_check_counter
      let (updates, pending) = get_updates ds₁.updates
      (w₂, ds₂) ← watch_updates updates b.sag w₁ (record ds₁ { updates = pending })
      (fd, ds₃, emitted) ← get_emitted_alerts d b.fault_detection ds₂
      (sag, w₃, ds₄) ← (elim emitted [
        | [] ↦ ok (b.sag, w₂, ds₃)
        | a ∷ as' ↦ expand_subgraph (a ∷ as') b.sag w₂ ds₃
      ])
      let expanded = record b {
        watchlist = w₃;
        fault_detection = fd;
        sag = sag;
        blind_spot_check_counter = counter;
      }
      (b', aborted) ← check_abort_criteria (length emitted) expanded
      (b'', ds₅, handled) ←
          if aborted
          then (do (b₁, ds', last) ← abort b' ds₄; ok (b₁, ds', emitted ++ last))
          else ok (b', ds₄, emitted)
      ds₆ ← destroy_alerts handled ds₅
      ok (b'', ds₆, handled)
