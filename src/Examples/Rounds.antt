-- ===== src/Examples/Rounds.antt =====
-- Fault detection and the subgraph builder at concrete inputs, with whole numbers for doubles.
use stream_fdl.Prelude.{
  ◌>>=◌, ◌++◌, ℕ, ◌+◌, ◌≤◌, String, ◌≡◌, refl, inr, Bool, true, false, not, Option, none, some,
  List, [], ◌∷◌, arith, ◌==◌, if◌then◌else◌, length, ok,
}
use stream_fdl.Prelude.Double.{whole}
use stream_fdl.AtomicCounter.{counter}
use stream_fdl.DoubleLinkedList.{element, write}
use stream_fdl.Members.{node, proxy}
use stream_fdl.Members.Attributes.{Response}
use stream_fdl.Graph.{Graph}
use stream_fdl.GraphView.{vertex}
use stream_fdl.DataStore.{DataStore}
use stream_fdl.FaultDetection.{
  Alert, severity_normal, AttributeWindow, FaultDetection, is_dead_node, detect_faults,
}
use stream_fdl.FaultDetection.Detection.{outliers, detect_faults-outliers}
use stream_fdl.FaultDetection.Round.{update_windows}
use stream_fdl.FaultDetection.Pooled.{pool, update_windows-pool}
use stream_fdl.DynamicSubgraph.{DynamicSubgraphBuilder}
use stream_fdl.DynamicSubgraph.Abort.{run, count_exceeded, count_aborted, run-balance}
use stream_fdl.Examples.Handles.{talker_node}
use stream_fdl.Examples.Stores.{talker_entry, store, channel, watched}
use stream_fdl.FaultDetection.Delivery.{Run, run_events, checked, taken, run_events-once}
use stream_fdl.Prelude.{fault, assertion, inr}
use stream_fdl.DynamicSubgraph.{blind_spot_check}
use stream_fdl.GraphView.Full.{QueryResult, get_full_graph_view, connect_edges}
use stream_fdl.Blindspots.{
  get_blindspots, search_all, trace, trace_edges, is_path_end, take_back, take_vertex,
}
use stream_fdl.DoubleLinkedList.Search.{first_match}
use stream_fdl.Examples.Stores.{store_view, store-IsView}
use stream_fdl.DynamicSubgraph.Spots.{blind_spot_check-outcome}

abbrev pub window : AttributeWindow whole
window = ("cpu", record { max_size = 2; buffer = 10 ∷ 0 ∷ []; current = 0 }) ∷ []

detect_faults-outliers_example :
    detect_faults whole (node talker_node) window
    ≡ ok (
        if is_dead_node whole (node talker_node)
        then (true, [])
        else (not (length (outliers whole window) == 0), outliers whole window))
detect_faults-outliers_example =
    detect_faults-outliers whole (node talker_node) window (inr (omega arith), tt)

-- The store with another counter at address 1.
abbrev counted : ℕ → DataStore ℕ → DataStore ℕ
counted n ds = record ds {
  nodes = record ds.nodes {
    heap =
        write ds.nodes.heap 1
          (some (element 0 0 (record talker_entry { use_counter = counter n })));
  };
}

abbrev nothing : String → Option (Response ℕ)
nothing name = none

-- The store with an attribute at the node.
abbrev pub measured : DataStore ℕ
measured = record store {
  nodes = record store.nodes {
    heap = write store.nodes.heap 1 (
        some (
          element 0 0 (record talker_entry {
            instance_value = record talker_node {
              base = record talker_node.base {
                attributes =
                    record { name = "cpu"; shared_memory = "/cpu"; request_id = 3; last_value = 4 }
                    ∷ [];
              };
            };
          })));
  };
}

update_windows-pool_example :
    update_windows whole nothing 2 (1 ∷ 1 ∷ []) ((5, window) ∷ []) measured ≡ (
      pool whole nothing (1 ∷ 1 ∷ []) window measured >>= λ (window', ds').
      ok ((5, window') ∷ [], ds', 1 ∷ 1 ∷ []))
update_windows-pool_example =
    update_windows-pool whole nothing 2 (1 ∷ 1 ∷ []) 5 window measured (refl, (refl, tt)) refl

abbrev pub alarm : Alert
alarm = record {
  member = 1;
  affected_attributes = "cpu" ∷ [];
  timestamp = 5;
  severity = severity_normal;
}

abbrev detection : FaultDetection whole
detection = record { alerts = alarm ∷ []; moving_window = []; moving_window_size = 2 }

abbrev pub builder : DynamicSubgraphBuilder whole
builder = record {
  watchlist = watched;
  fault_detection = detection;
  sag = record { vertices = []; visualisation_pending = false };
  something_is_going_on = false;
  last_nr_alerts = record { max_size = 3; buffer = []; current = 0 };
  blind_spot_check_counter = 0;
  blindspot_interval = 4;
  abortion_criteria_threshold = 2;
  maximum_cpu_utilisation = 80;
}

run-balance_example :
    (b' : DynamicSubgraphBuilder whole) × (trace : List (Bool × Bool)) × (run whole
        (5 ∷ 0 ∷ 0 ∷ [])
        builder
      ≡ ok (b', trace))
    × (length b'.last_nr_alerts.buffer ≡ 3)
    × count_aborted whole trace ≤ count_exceeded whole trace + 0
run-balance_example = run-balance whole (5 ∷ 0 ∷ 0 ∷ []) builder (omega arith)

abbrev one_vertex : Graph
one_vertex = record { vertices = 1 ∷ []; visualisation_pending = true }

run_events-once_example :
    (r' : Run whole nothing (λ p. 7)) × (run_events whole nothing
        (λ p. 7)
        (taken ∷ checked false alarm ∷ checked true alarm ∷ taken ∷ [])
        (record { detection = detection; store = store; delivered = [] })
      ≡ ok r')
    × (r'.delivered ++ r'.detection.alerts ≡ alarm ∷ alarm ∷ [])
run_events-once_example =
    run_events-once whole nothing (λ p. 7)
      (taken ∷ checked false alarm ∷ checked true alarm ∷ taken ∷ [])
      (record { detection = detection; store = store; delivered = [] }) ((_, refl), tt)
      ((_, refl), ((_, refl), tt))

abbrev lone_reply : QueryResult
lone_reply = record { active = "k1" ∷ []; passive = []; subs = []; pubs = []; sends = [] }

blind_spot_check-outcome_example :
    blind_spot_check whole channel 4 lone_reply watched store ≡ fault assertion
unfolding get_full_graph_view connect_edges get_blindspots search_all trace trace_edges is_path_end
    take_back take_vertex first_match
blind_spot_check-outcome_example =
    blind_spot_check-outcome whole channel 4 watched store store_view lone_reply
      (vertex (proxy "k1" false) [] ∷ []) (proxy "k1" false ∷ []) refl refl store-IsView
      (refl, (_, refl), tt) (inr refl, tt)
