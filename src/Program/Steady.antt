-- ===== src/Program/Steady.antt =====
-- The turns of the building and of the detecting thread in any order (main.cpp,
-- dynamic-subgraph.cpp, fault-detection.cpp), which never fail while the processor is busy.
use stream_fdl.Prelude.{
  ℕ, String, ◌≡◌, refl, ap, ◌∙◌, ◌⊎◌, inl, inr, false, Option, List, [], ◌∷◌, ok,
}
use stream_fdl.Prelude.After.{Any, After, After-ok, After-map, After-returns, >>=-After}
use stream_fdl.Prelude.All.{All}
use stream_fdl.Prelude.Double.{Double}
use stream_fdl.MemberPtr.{MemberPtr}
use stream_fdl.Members.{Timestamp}
use stream_fdl.Members.Attributes.{Response}
use stream_fdl.GraphView.Full.{QueryResult}
use stream_fdl.DataStore.{Channel}
use stream_fdl.DataStore.Live.{IsLive, IsLive-same}
use stream_fdl.DataStore.Typed.{IsTyped}
use stream_fdl.DataStore.Typed.Requests.{IsTyped-IsKept}
use stream_fdl.Watchlist.{Watchlist}
use stream_fdl.FaultDetection
use stream_fdl.FaultDetection.{Alert, FaultDetection, MemberWindow}
use stream_fdl.FaultDetection.Ready.Attributes.{AreNumerical}
use stream_fdl.FaultDetection.Ready.Round.{run_round-IsReady}
use stream_fdl.DynamicSubgraph
use stream_fdl.DynamicSubgraph.Kept
use stream_fdl.DynamicSubgraph.{DynamicSubgraphBuilder}
use stream_fdl.DynamicSubgraph.Turn.Round.{run_round-outcome}
use stream_fdl.Program.{System, Turn, building, detecting, storing, run_turn, run_turns}
use stream_fdl.Program.Interleaving.{IsFree-outlines}
use stream_fdl.Program.Interleaving.Building.{
  IsSteady, IsSteady-IsCalm, Idle-IsSteady, Continued-IsSteady,
}

module _ (d : Double) (ch : Channel d.Value) (rounds : ℕ) where
  open d use {Value, lt}

  -- A turn of the building thread at a load of the processor at which no check for blind spots is
  -- made, or a turn of the detecting thread where the channels deliver numbers; not a turn of the thread
  -- of the data store.
  abbrev pub IsBusy : Value → Turn d → Type 0
  IsBusy maximum (building cpu q) = lt cpu maximum ≡ false
  IsBusy maximum (detecting received now) = AreNumerical received
  IsBusy maximum (storing m) = ⊥

  -- The watchlist that turns leave: the same, or the empty one of an investigation that ended.
  abbrev pub Watches : Watchlist → Watchlist → Type 0
  Watches w w' = (w' ≡ w) ⊎ (w'.members ≡ [])

  -- The state that turns leave.
  abbrev pub Stays : System d → System d → Type 0
  Stays s s' =
      IsSteady d ch rounds s'
      × ((q : MemberPtr) → IsLive s.store q → IsLive s'.store q)
      × Watches s.builder.watchlist s'.builder.watchlist
      × (s'.builder.maximum_cpu_utilisation ≡ s.builder.maximum_cpu_utilisation)

  building-Stays :
      (cpu : Value) (q : QueryResult) (s : System d)
      → lt cpu s.builder.maximum_cpu_utilisation ≡ false
      → IsSteady d ch rounds s
      → After ⊥ (Stays s) (run_turn d ch rounds (building cpu q) s)
  unfolding run_turn
  building-Stays cpu q s busy steady =
      let (b', ds', out, ran, (given, counted, same, set, inside, (mean, averaged, decided))) =
        run_round-outcome d ch rounds cpu q s.builder s.store
          (IsSteady-IsCalm d ch rounds cpu s busy steady) in
      let typed =
        After-ok Any (λ r. IsTyped ch r.1) _ (b', ds', out)
          (DynamicSubgraph.Kept.run_round-After d ch rounds (IsTyped ch) (IsTyped-IsKept ch rounds)
            cpu q s.builder s.store steady.ready.typed)
          ran in
      let s' : System d = record { builder = b'; store = ds' } in
      let lives : (p : MemberPtr) → IsLive s.store p → IsLive ds' p =
        λ p. IsLive-same s.store ds' p same in
      rw ran (elim decided [
        | inl (over, idle) ↦
            (Idle-IsSteady d ch rounds s s' steady typed set inside idle, lives, inr idle.1, set.1)
        | inr (over, going) ↦ (
          Continued-IsSteady d ch rounds s s' mean steady typed same set inside going,
          lives,
          inl going.1,
          set.1,
        )
      ])

  detecting-Stays :
      (received : String → Option (Response Value)) (now : MemberPtr → Timestamp) (s : System d)
      → AreNumerical received
      → IsSteady d ch rounds s
      → After ⊥ (Stays s) (run_turn d ch rounds (detecting received now) s)
  unfolding run_turn
  detecting-Stays received now s numbers steady =
      >>=-After ⊥ _
        (FaultDetection.Round.run_round d received now ch rounds s.builder.fault_detection
          s.builder.watchlist s.store)
        _
        (run_round-IsReady d ch received numbers now rounds s.builder.fault_detection
          s.builder.watchlist s.store steady.ready)
        (λ r (same, ready, goes). (
          record {
            ready = ready;
            positive = steady.positive;
            inside = steady.inside;
            vertices = λ q inside. goes.1 q (steady.vertices q inside);
            distinct = steady.distinct;
            free =
                rw same
                  (IsFree-outlines s.store r.2 s.builder.watchlist.members goes.2 steady.free);
          },
          goes.1,
          inl same,
          refl,
        ))

  run_turn-Stays :
      (t : Turn d) (s : System d)
      → IsBusy s.builder.maximum_cpu_utilisation t
      → IsSteady d ch rounds s
      → After ⊥ (Stays s) (run_turn d ch rounds t s)
  run_turn-Stays (building cpu q) s busy steady = building-Stays cpu q s busy steady
  run_turn-Stays (detecting received now) s busy steady = detecting-Stays received now s busy steady
  run_turn-Stays (storing m) s busy steady = absurd busy

  Watches-trans : (w w' w'' : Watchlist) → Watches w w' → Watches w' w'' → Watches w w''
  Watches-trans w w' w'' before (inr empty) = inr empty
  Watches-trans w w' w'' (inl same) (inl same') = inl (same' ∙ same)
  Watches-trans w w' w'' (inr empty) (inl same') = inr (ap Watchlist.members same' ∙ empty)

  run_turns-Stays :
      (ts : List (Turn d)) (s : System d)
      → All (IsBusy s.builder.maximum_cpu_utilisation) ts
      → IsSteady d ch rounds s
      → After ⊥ (Stays s) (run_turns d ch rounds ts s)
  unfolding run_turns
  run_turns-Stays [] s busy steady = (steady, (λ q live. live), inl refl, refl)
  run_turns-Stays (t ∷ ts) s (now, later) steady =
      >>=-After ⊥ _ (run_turn d ch rounds t s) _ (run_turn-Stays t s now steady)
        (λ s₁ (steady₁, lives₁, watches₁, cpu₁).
          After-map ⊥ _ _ (run_turns d ch rounds ts s₁)
            (run_turns-Stays ts s₁ (rw cpu₁ later) steady₁)
            (λ s' (steady', lives', watches', cpu'). (
              steady',
              (λ q live. lives' q (lives₁ q live)),
              Watches-trans s.builder.watchlist s₁.builder.watchlist s'.builder.watchlist watches₁
                  watches',
              cpu' ∙ cpu₁,
            )))

  -- From a steady state (the initial members have been found, the watchlist holds one at most, every
  -- handle of the watchlist, the windows and the alerts and every vertex of the graph points at a
  -- member, no vertex occurs twice, the lists hold members of their class with their one attribute,
  -- each window has one buffer for it, two values at least fit into a buffer, the interval of the
  -- checks for blind spots is positive, the iterator of the buffer of the numbers of alerts is inside
  -- or at the end, and no member that is listed before a stored one is on the watchlist), the building
  -- and the detecting thread never fail, in whatever order they take their turns, as long as the thread
  -- of the data store takes none between them, so that no member is collected, where the load of
  -- the processor is not below the maximum in each turn of the building thread, so that no check for
  -- blind spots is made, and the channels deliver numbers in each turn of the detecting thread: all
  -- turns return, the state is steady again, each handle that pointed at a member still does, the
  -- watchlist is the same or empty, and the maximum of the load is the same.
  pub run_turns-interleave :
      (ts : List (Turn d)) (s : System d)
      → All (IsBusy s.builder.maximum_cpu_utilisation) ts
      → IsSteady d ch rounds s
      → (s' : System d) × (run_turns d ch rounds ts s ≡ ok s') × Stays s s'
  run_turns-interleave ts s busy steady =
      After-returns (Stays s) (run_turns d ch rounds ts s) (run_turns-Stays ts s busy steady)
