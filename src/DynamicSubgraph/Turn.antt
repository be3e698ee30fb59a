-- ===== src/DynamicSubgraph/Turn.antt =====
-- The steps of a round of the main loop of dynamic-subgraph.cpp on live handles.
pub mod Steps
pub mod Ending
pub mod Round
use stream_fdl.Prelude.{ℕ, ◌≤◌, ◌≡◌, refl, ◌∙◌, ◌&&◌, ◌||◌, [], ◌∷◌, arith, length, ok, ◌>>=◌, ◌>>◌}
use stream_fdl.Prelude.After.{After, >>=-After, After-map}
use stream_fdl.Prelude.Double.{Double}
use stream_fdl.AtomicCounter.{decrease}
use stream_fdl.CircularBuffer.{CircularBuffer}
use stream_fdl.CircularBuffer.Growth.{push-length}
use stream_fdl.CircularBuffer.Statistics.{get_mean}
use stream_fdl.Graph
use stream_fdl.DataStore.{DataStore, adjust_counter}
use stream_fdl.DataStore.Live.{IsLive, IsLive-same, HasSameMembers}
use stream_fdl.Watchlist
use stream_fdl.FaultDetection
use stream_fdl.FaultDetection.{MemberWindow, destroy_window}
use stream_fdl.FaultDetection.Delivery
use stream_fdl.DynamicSubgraph.{DynamicSubgraphBuilder, check_abort_criteria}
use stream_fdl.DynamicSubgraph.Abort.{get_mean-ok}
use stream_fdl.DynamicSubgraph.Same.{adjust_counter-Same}

module _ (d : Double) where
  open d use {Value, of_ℕ, lt, le}

  abbrev pub HaveMembers : DataStore Value → MemberWindow d → Type 0
  HaveMembers ds [] = Unit {0}
  HaveMembers ds ((p, window) ∷ m) = IsLive ds p × HaveMembers ds m

  pub HaveMembers-same :
      (ds ds' : DataStore Value) (m : MemberWindow d)
      → HasSameMembers ds ds'
      → HaveMembers ds m
      → HaveMembers ds' m
  HaveMembers-same ds ds' [] same live = tt
  HaveMembers-same ds ds' ((p, window) ∷ m) same (l, live) =
      (IsLive-same ds ds' p same l, HaveMembers-same ds ds' m same live)

  pub destroy_window-Same :
      (m : MemberWindow d) (ds : DataStore Value)
      → HaveMembers ds m
      → After ⊥ (HasSameMembers ds) (destroy_window d m ds)
  unfolding destroy_window
  destroy_window-Same [] ds live = λ q. refl
  destroy_window-Same ((p, window) ∷ m) ds (l, live) =
      >>=-After ⊥ _ (adjust_counter decrease p ds) _ (adjust_counter-Same decrease p ds l)
        (λ ds' same.
          After-map ⊥ _ _ (destroy_window d m ds')
            (destroy_window-Same m ds' (HaveMembers-same ds ds' m same live))
            (λ ds'' same' q. same' q ∙ same q))

  -- The abort criteria on a usable buffer: the mean of the numbers with the new one decides.
  pub check_abort_criteria-decides :
      (n : ℕ) (b : DynamicSubgraphBuilder d)
      → b.last_nr_alerts.current ≤ length b.last_nr_alerts.buffer
      → (c : CircularBuffer Value) × (mean : Value) × (get_mean d c ≡ ok mean)
        × c.current ≤ length c.buffer
        × (check_abort_criteria d n b
            ≡ ok (
              record b {
                last_nr_alerts = c;
                something_is_going_on =
                    b.something_is_going_on || lt b.abortion_criteria_threshold mean;
              },
              b.something_is_going_on && le mean b.abortion_criteria_threshold,
            ))
  unfolding check_abort_criteria
  check_abort_criteria-decides n b inside =
      let (c, pushed, longer, inside') = push-length b.last_nr_alerts (of_ℕ n) inside in
      let (mean, averaged) = get_mean-ok d c (omega arith) in
      (c, mean, averaged, inside', ground arith)
