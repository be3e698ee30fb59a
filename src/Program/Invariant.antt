-- ===== src/Program/Invariant.antt =====
-- What holds in every state that the threads of the program reach together (main.cpp).
use stream_fdl.Prelude.{
  ◌<◌, String, Bool, Option, none, some, ℕ, ◌≡◌, ap, subst, List, [], ◌∷◌, ok, >>=-eq-ok,
  ok-injective,
}
use stream_fdl.Prelude.Double.{Double}
use stream_fdl.DataStore
use stream_fdl.DataStore.{Channel, DataStore, AttributeAnswer}
use stream_fdl.DataStore.Lookup.{NewIsValid}
use stream_fdl.FaultDetection
use stream_fdl.FaultDetection.Watching.{run_round-IsSingleWindow}
use stream_fdl.DynamicSubgraph
use stream_fdl.DynamicSubgraph.Sound.{IsSound}
use stream_fdl.DynamicSubgraph.Sound.Round.{run_round-IsSound}
use stream_fdl.CircularBuffer
use stream_fdl.Members.{PrimaryKey}
use stream_fdl.DataStore.Start.{get_cpu_utilisation_memory}
use stream_fdl.DynamicSubgraph.Start.{Configuration, make_builder, make_fault_detection}
use stream_fdl.Program.Start.{make_watchlist-IsSingle}
use stream_fdl.Program.Session.{main-After}
use stream_fdl.Prelude.After.{Any, After, IfSome, After-of, After-ok, >>=-After, Outcome-After}
use stream_fdl.Program.{
  ConfigurationFile, main, System, Turn, building, detecting, storing, run_turn, run_turns,
}

-- No claim about a store.
anything : {A : Type 0} (o : Option A) → IfSome (λ a. Any) o
anything none = tt
anything (some a) = tt

module _ (d : Double) (ch : Channel d.Value) (rounds : ℕ) (valid : NewIsValid ch) where
  run_turn-IsSound :
      (t : Turn d) (s s' : System d)
      → IsSound d s.builder
      → run_turn d ch rounds t s ≡ ok s'
      → IsSound d s'.builder
  unfolding run_turn
  run_turn-IsSound (building cpu q) s s' sound h =
      let ((b, ds, emitted), run, kept) =
        >>=-eq-ok (DynamicSubgraph.run_round d ch rounds cpu q s.builder s.store) _ h in
      subst (IsSound d) (ap System.builder (ok-injective kept))
        (run_round-IsSound d ch rounds valid cpu q s.builder b s.store ds emitted sound run)
  run_turn-IsSound (detecting received now) s s' sound h =
      let ((fd, w, ds), run, kept) =
        >>=-eq-ok
          (FaultDetection.Round.run_round d received now ch rounds s.builder.fault_detection
            s.builder.watchlist s.store)
          _ h in
      let (single, window) =
        run_round-IsSingleWindow d received now ch rounds s.builder.fault_detection fd
          s.builder.watchlist w s.store ds valid sound.watching sound.windows run in
      subst (IsSound d) (ap System.builder (ok-injective kept)) record {
        distinct = sound.distinct;
        counting = sound.counting;
        watching = single;
        windows = window;
      }
  run_turn-IsSound (storing m) s s' sound h =
      let ((ds, ids), run, kept) = >>=-eq-ok (DataStore.Collect.run_round rounds m s.store) _ h in
      subst (IsSound d) (ap System.builder (ok-injective kept)) sound

  pub run_turns-IsSound :
      (ts : List (Turn d)) (s s' : System d)
      → IsSound d s.builder
      → run_turns d ch rounds ts s ≡ ok s'
      → IsSound d s'.builder
  unfolding run_turns
  run_turns-IsSound [] s s' sound h = subst (IsSound d) (ap System.builder (ok-injective h)) sound
  run_turns-IsSound (t ∷ ts) s s' sound h =
      let (s₁, run, rest) = >>=-eq-ok (run_turn d ch rounds t s) _ h in
      run_turns-IsSound ts s₁ s' (run_turn-IsSound t s s₁ sound run) rest

  module _ (attribute : ℕ → PrimaryKey → Option (AttributeAnswer d.Value))
      (host_name : String) where
    make_builder-After :
        (config : Configuration d) (ds : DataStore d.Value)
        → 0 < config.blindspot_interval
        → After Any (λ r. IsSound d r.0) (make_builder d ch attribute host_name config ds)
    unfolding make_builder make_fault_detection
    make_builder-After config ds positive =
        >>=-After Any _ (CircularBuffer.make config.nr_normalisation_values) _ (Outcome-After _)
          (λ alerts _.
            >>=-After Any _ (get_cpu_utilisation_memory ch attribute host_name ds) _
              (Outcome-After _)
              (λ r _. record {
                distinct = tt;
                counting = positive;
                watching = make_watchlist-IsSingle config.initial_watchlist_members;
                windows = tt;
              }))

    -- Where new elements of the lists have valid addresses and the interval of the blind spot check
    -- that the file gives, if it parses, is positive, every state that `main` ends in, whatever the
    -- answers of the channels were and in whatever order the threads took their turns, is of this
    -- kind: the graph has no member twice, the counter of the blind spot check is below its interval,
    -- the watchlist has one member at most, which is an initial one, and there is one window at most.
    pub main-IsSound :
        (retry_connection : Bool) (retry_attempts : ℕ) (succeeds : ℕ → Bool) (argc : ℕ)
        (file : ConfigurationFile (Configuration d)) (turns : List (Turn d)) (code : ℕ)
        (s : System d)
        → ((config : Configuration d) → file.contents ≡ some config → 0 < config.blindspot_interval)
        → main d ch rounds argc file retry_connection retry_attempts succeeds attribute host_name
            turns
          ≡ ok (code, some s)
        → IsSound d s.builder
    main-IsSound retry_connection retry_attempts succeeds argc file turns code s positive ended =
        After-ok Any _ _ (code, some s)
          (main-After d ch (λ t. IsSound d t.builder) (λ ds. Any) attribute host_name rounds
            retry_connection retry_attempts succeeds turns
            (λ t sound. After-of _ _ (λ t' ran. run_turns-IsSound turns t t' sound ran))
            (After-of (IfSome (λ ds. Any)) _ (λ made _. anything made)) argc file
            (λ config at ds _. make_builder-After config ds (positive config at)))
          ended
