-- ===== src/Examples/Sessions.antt =====
-- Whole rounds and whole sessions at concrete inputs.
use stream_fdl.Prelude.{
  ℕ, ◌≡◌, refl, true, false, Option, none, some, List, [], ◌∷◌, arith, Outcome, ok, fault,
}
use stream_fdl.Prelude.Double.{whole}
use stream_fdl.StdMap
use stream_fdl.CircularBuffer.{make, push, insert_at, full}
use stream_fdl.DoubleLinkedList.{write, load, emplace_back, find_from}
use stream_fdl.MemberPtr.{MemberPtr}
use stream_fdl.Members.{Member, node, make_node}
use stream_fdl.Members.Attributes.{
  numerical, add_attribute_source, get_attributes, get_attributes_loop, refresh,
}
use stream_fdl.DataStore.{
  Channel, DataStore, member_at, modify_entry, adjust_counter, add_source, request_node,
  get_node_by_name,
}
use stream_fdl.DataStore.Live.{IsLive}
use stream_fdl.DataStore.Casts.{IsCast}
use stream_fdl.DataStore.Start.{
  make_data_store, find_ignored, search_until, get_cpu_utilisation_memory,
}
use stream_fdl.DataStore.Retry.{try_make_ipc_client}
use stream_fdl.Watchlist.{ptr_less, copy_all, initialise_loop, try_initialise, get_members}
use stream_fdl.FaultDetection.{
  FaultDetection, create_attr_window, create_attr_window_loop, detect_faults, affected_attributes,
  is_affected,
}
use stream_fdl.FaultDetection.Round.{
  member_attributes, place_attributes, update_member, update_windows, check_windows, check_entry,
  check_window, after_check, emit, destroy_handles,
}
use stream_fdl.FaultDetection.Ready.{HasSameOutlines}
use stream_fdl.FaultDetection
use stream_fdl.DynamicSubgraph.{DynamicSubgraphBuilder, run_round}
use stream_fdl.DynamicSubgraph.Start.{
  Configuration, make_builder, make_watchlist, make_fault_detection,
}
use stream_fdl.Program.Interleaving.Building.{IsSteady}
use stream_fdl.Program.Steady.{Stays, run_turns-interleave}
use stream_fdl.Program.{
  ConfigurationFile, System, Turn, building, detecting, run_turn, run_turns, session, main,
}
use stream_fdl.Program.Invariant.{main-IsSound}
use stream_fdl.DynamicSubgraph.Sound.{IsSound}
use stream_fdl.Program.Typed.{main-casts}
use stream_fdl.Program.Detecting.{Detection, turns_of, IsReadySystem, run_turns-returns}
use stream_fdl.Examples.Handles.{talker_node}
use stream_fdl.Examples.Stores.{store, channel, late_channel, watched, listener_answer}
use stream_fdl.Examples.Rounds.{measured, window, alarm, builder}
use stream_fdl.Examples.Programs.{config, load as cpu_load, empty_reply}

-- A calm state: an investigation runs, and there is an alert.
abbrev calm_builder : DynamicSubgraphBuilder whole
calm_builder = record builder { something_is_going_on = true; blind_spot_check_counter = 3 }

abbrev ready_system : System whole
ready_system = record {
  builder = record builder {
    watchlist = record watched { initial_member_names = [] };
    fault_detection = record {
      alerts = alarm ∷ [];
      moving_window = (1, window) ∷ [];
      moving_window_size = 2;
    };
  };
  store = measured;
}

ready : IsReadySystem whole channel 4 ready_system
unfolding write
ready = record {
  typed = record { nodes_are = λ a e at. ground arith; topics_are = λ a e at. cc };
  named = refl;
  single = (refl, refl);
  watched = (refl, (_, refl), tt);
  windows = (((_, refl), (_, refl, omega arith)), tt);
  alerts = ((_, refl), tt);
  roomy = refl;
}

-- Two rounds: one in which the node's load arrives, and one without news.
abbrev two_rounds : List (Detection whole channel 4)
two_rounds = ((λ name. some (numerical 90)), (λ p. 7)) ∷ ((λ name. none), (λ p. 8)) ∷ []

run_turns-returns_example :
    (s' : System whole) × (run_turns whole channel 4
        (turns_of whole channel 4 two_rounds)
        ready_system
      ≡ ok s')
    × IsReadySystem whole channel 4 s'
    × (s'.builder.watchlist ≡ ready_system.builder.watchlist)
    × ((q : MemberPtr) → IsLive ready_system.store q → IsLive s'.store q)
    × HasSameOutlines ready_system.store s'.store
run_turns-returns_example =
    run_turns-returns whole channel 4 two_rounds ready_system
      ((λ name found at other. ground arith), ((λ name found at other. ground arith), tt)) ready

-- A turn of the building thread between two of the detecting thread.
abbrev three_turns : List (Turn whole)
three_turns =
    detecting (λ name. some (numerical 90)) (λ p. 7)
    ∷ building 85 empty_reply
    ∷ detecting (λ name. none) (λ p. 8)
    ∷ []

steady : IsSteady whole channel 4 ready_system
unfolding write
steady = record {
  ready = ready;
  positive = omega arith;
  inside = omega arith;
  vertices = λ q inside. cc;
  distinct = tt;
  free = λ q. ground arith;
}

run_turns-interleave_example :
    (s' : System whole) × (run_turns whole channel 4 three_turns ready_system ≡ ok s')
    × Stays whole channel 4 ready_system s'
run_turns-interleave_example =
    run_turns-interleave whole channel 4 three_turns ready_system
      ((λ name found at other. ground arith), (refl, ((λ name found at other. ground arith), tt)))
      steady

-- A channel on which one node is found, and answers.
abbrev answering : Channel ℕ
answering = record late_channel {
  search_node = λ id name. some "k9";
  request_node = λ id key. listener_answer;
}

abbrev watching_file : ConfigurationFile (Configuration whole)
watching_file = record {
  is_regular_file = true;
  extension = ".json";
  opens = true;
  contents = some (record config { initial_watchlist_members = some ("/listener" ∷ []) });
}

abbrev session_run : Outcome (ℕ × Option (System whole))
session_run =
    main whole answering 4 2 watching_file false 0 (λ _. true) (λ n k. some cpu_load) "robot"
      (detecting (λ name. none) (λ p. 7) ∷ [])

-- The state at the end, where there is one.
abbrev end_of : Outcome (ℕ × Option (System whole)) → System whole
end_of (ok (code, some s)) = s
end_of (ok (code, none)) = ready_system
end_of (fault f) = ready_system

abbrev member_of : Option (Member ℕ) → Member ℕ
member_of (some m) = m
member_of none = node talker_node

main-casts_example :
    IsCast (end_of session_run).store 7 (member_of (member_at (end_of session_run).store 7))
unfolding main session make_data_store find_ignored search_until try_make_ipc_client make_builder
    make_watchlist make_fault_detection get_cpu_utilisation_memory make run_turns run_turn
    FaultDetection.Round.run_round get_members try_initialise initialise_loop get_node_by_name
    find_from request_node emplace_back make_node modify_entry load write add_source
    add_attribute_source StdMap.emplace StdMap.find StdMap.insert_sorted ptr_less copy_all
    adjust_counter update_windows update_member member_attributes get_attributes get_attributes_loop
    refresh place_attributes create_attr_window create_attr_window_loop push insert_at check_windows
    check_entry full destroy_handles
main-casts_example =
    main-casts whole answering (λ n k. some cpu_load) "robot" 4 false 0 (λ _. true) 2 watching_file
      (detecting (λ name. none) (λ p. 7) ∷ []) 0 (end_of session_run) 7
      (member_of (member_at (end_of session_run).store 7)) refl refl

main-IsSound_example : IsSound whole (end_of session_run).builder
unfolding main session make_data_store find_ignored search_until try_make_ipc_client make_builder
    make_watchlist make_fault_detection get_cpu_utilisation_memory make run_turns run_turn
    FaultDetection.Round.run_round get_members try_initialise initialise_loop get_node_by_name
    find_from request_node emplace_back make_node modify_entry load write add_source
    add_attribute_source StdMap.emplace StdMap.find StdMap.insert_sorted ptr_less copy_all
    adjust_counter update_windows update_member member_attributes get_attributes get_attributes_loop
    refresh place_attributes create_attr_window create_attr_window_loop push insert_at check_windows
    check_entry full destroy_handles
main-IsSound_example =
    main-IsSound whole answering 4 ((λ id key. refl), (λ id key. refl)) (λ n k. some cpu_load)
      "robot" false 0 (λ _. true) 2 watching_file (detecting (λ name. none) (λ p. 7) ∷ []) 0
      (end_of session_run) (λ c at. ground arith) refl
