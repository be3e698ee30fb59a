-- ===== src/Program/Kept.antt =====
-- What the turns of the threads keep of the store (main.cpp).
use stream_fdl.Prelude.{ℕ, List, [], ◌∷◌}
use stream_fdl.Prelude.After.{Any, After, >>=-After}
use stream_fdl.Prelude.Double.{Double}
use stream_fdl.DataStore
use stream_fdl.DataStore.{Channel, DataStore}
use stream_fdl.DataStore.Messages.{Messages}
use stream_fdl.DataStore.Kept.{IsKept}
use stream_fdl.FaultDetection
use stream_fdl.FaultDetection.Kept.{IsRefreshed}
use stream_fdl.DynamicSubgraph
use stream_fdl.Program.{System, Turn, building, detecting, storing, run_turn, run_turns}

module _ (d : Double) (ch : Channel d.Value) (rounds : ℕ) (I : DataStore d.Value → Type 0)
    (kept : IsKept ch rounds I) (refreshed : IsRefreshed d I)
    (stored : (m : Messages) (ds : DataStore d.Value)
      → I ds
      → After Any (λ r. I r.0) (DataStore.Collect.run_round rounds m ds)) where
  run_turn-After :
      (t : Turn d) (s : System d)
      → I s.store
      → After Any (λ s'. I s'.store) (run_turn d ch rounds t s)
  unfolding run_turn
  run_turn-After (building cpu q) s i =
      >>=-After Any _ (DynamicSubgraph.run_round d ch rounds cpu q s.builder s.store) _
        (DynamicSubgraph.Kept.run_round-After d ch rounds I kept cpu q s.builder s.store i)
        (λ _ i'. i')
  run_turn-After (detecting received now) s i =
      >>=-After Any _
        (FaultDetection.Round.run_round d received now ch rounds s.builder.fault_detection
          s.builder.watchlist s.store)
        _
        (FaultDetection.Kept.run_round-After d ch rounds I kept refreshed received now
          s.builder.fault_detection s.builder.watchlist s.store i)
        (λ _ i'. i')
  run_turn-After (storing m) s i =
      >>=-After Any _ (DataStore.Collect.run_round rounds m s.store) _ (stored m s.store i)
        (λ _ i'. i')

  -- What every operation on the store keeps, all turns of the threads keep.
  pub run_turns-After :
      (ts : List (Turn d)) (s : System d)
      → I s.store
      → After Any (λ s'. I s'.store) (run_turns d ch rounds ts s)
  unfolding run_turns
  run_turns-After [] s i = i
  run_turns-After (t ∷ ts) s i =
      >>=-After Any _ (run_turn d ch rounds t s) _ (run_turn-After t s i)
        (λ s' i'. run_turns-After ts s' i')
