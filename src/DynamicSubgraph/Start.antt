-- ===== src/DynamicSubgraph/Start.antt =====
-- The constructors of `Watchlist`, `FaultDetection` and `DynamicSubgraphBuilder` (watchlist.cpp,
-- fault-detection.cpp, dynamic-subgraph.cpp), from the values that the configuration holds.
use stream_fdl.Prelude.{ℕ, String, false, Option, none, some, List, [], Outcome, ok, ◌>>=◌}
use stream_fdl.Prelude.Double.{Double}
use stream_fdl.CircularBuffer
use stream_fdl.Members.{PrimaryKey}
use stream_fdl.DataStore.{Channel, DataStore, AttributeAnswer}
use stream_fdl.DataStore.Start.{get_cpu_utilisation_memory}
use stream_fdl.Watchlist.{Watchlist}
use stream_fdl.FaultDetection.{FaultDetection}
use stream_fdl.DynamicSubgraph.{DynamicSubgraphBuilder}

-- `Watchlist(config, …)`: none where the configuration has null for the names.
unfoldable pub make_watchlist : Option (List String) → Watchlist
make_watchlist none = record { initial_member_names = []; members = [] }
make_watchlist (some names) = record { initial_member_names = names; members = [] }

module _ (d : Double) where
  open d use {Value}

  -- The values under the keys of src/common.hpp that the builder reads.
  pub record Configuration : Type 0 where
    pub initial_watchlist_members : Option (List String)
    pub moving_window_size : ℕ
    pub nr_normalisation_values : ℕ
    pub abortion_criteria_threshold : Value
    pub blindspot_interval : ℕ
    pub blindspot_cpu_threshold : Value

  -- `FaultDetection(config, …)`.
  unfoldable pub make_fault_detection : ℕ → FaultDetection d
  make_fault_detection size = record { alerts = []; moving_window = []; moving_window_size = size }

  -- `DynamicSubgraphBuilder(config, …)`, with the address of the memory of the CPU load.
  unfoldable pub make_builder :
      (ch : Channel Value) (attribute : ℕ → PrimaryKey → Option (AttributeAnswer Value))
      (host_name : String)
      → Configuration
      → DataStore Value
      → Outcome (DynamicSubgraphBuilder d × DataStore Value × String)
  make_builder ch attribute host_name config ds = do
    last_nr_alerts ← CircularBuffer.make config.nr_normalisation_values
    (ds', memory) ← get_cpu_utilisation_memory ch attribute host_name ds
    ok (
      record {
        watchlist = make_watchlist config.initial_watchlist_members;
        fault_detection = make_fault_detection config.moving_window_size;
        sag = record { vertices = []; visualisation_pending = false };
        something_is_going_on = false;
        last_nr_alerts = last_nr_alerts;
        blind_spot_check_counter = 0;
        blindspot_interval = config.blindspot_interval;
        abortion_criteria_threshold = config.abortion_criteria_threshold;
        maximum_cpu_utilisation = config.blindspot_cpu_threshold;
      },
      ds',
      memory,
    )
