-- ===== src/Program/Detecting.antt =====
-- The turns of the detecting thread (main.cpp, fault-detection.cpp), which never fail.
use stream_fdl.Prelude.{ℕ, String, ◌≡◌, refl, ◌∙◌, Option, List, [], ◌∷◌, ok}
use stream_fdl.Prelude.After.{After, After-returns, >>=-After, After-map}
use stream_fdl.Prelude.All.{All}
use stream_fdl.Prelude.Double.{Double}
use stream_fdl.MemberPtr.{MemberPtr}
use stream_fdl.Members.{Timestamp}
use stream_fdl.Members.Attributes.{Response}
use stream_fdl.DataStore.{Channel}
use stream_fdl.DataStore.Live.{IsLive}
use stream_fdl.FaultDetection
use stream_fdl.FaultDetection.Ready.{HasSameOutlines, Goes, Goes-refl, Goes-trans}
use stream_fdl.FaultDetection.Ready.Attributes.{AreNumerical}
use stream_fdl.FaultDetection.Ready.Round.{IsReady, run_round-IsReady}
use stream_fdl.Program.{System, Turn, detecting, run_turn, run_turns}

module _ (d : Double) (ch : Channel d.Value) (rounds : ℕ) where
  -- What the channels deliver in a round, and its clock.
  abbrev pub Detection : Type 0
  Detection = (String → Option (Response d.Value)) × (MemberPtr → Timestamp)

  abbrev pub turns_of : List Detection → List (Turn d)
  turns_of [] = []
  turns_of ((received, now) ∷ rs) = detecting received now ∷ turns_of rs

  abbrev pub IsReadySystem : System d → Type 0
  IsReadySystem s = IsReady d ch s.builder.fault_detection s.builder.watchlist s.store

  -- What many turns leave.
  abbrev pub Left : System d → System d → Type 0
  Left s s' =
      IsReadySystem s' × (s'.builder.watchlist ≡ s.builder.watchlist) × Goes ch s.store s'.store

  run_turn-Left :
      (received : String → Option (Response d.Value)) (now : MemberPtr → Timestamp) (s : System d)
      → AreNumerical received
      → IsReadySystem s
      → After ⊥ (Left s) (run_turn d ch rounds (detecting received now) s)
  unfolding run_turn
  run_turn-Left received now s numbers ready =
      >>=-After ⊥ _
        (FaultDetection.Round.run_round d received now ch rounds s.builder.fault_detection
          s.builder.watchlist s.store)
        _
        (run_round-IsReady d ch received numbers now rounds s.builder.fault_detection
          s.builder.watchlist s.store ready)
        (λ r (same, ready', goes). (ready', same, goes))

  run_turns-Left :
      (rs : List Detection) (s : System d)
      → All (λ r. AreNumerical r.0) rs
      → IsReadySystem s
      → After ⊥ (Left s) (run_turns d ch rounds (turns_of rs) s)
  unfolding run_turns
  run_turns-Left [] s numbers ready = (ready, refl, Goes-refl ch s.store ready.typed)
  run_turns-Left ((received, now) ∷ rs) s (number, numbers) ready =
      >>=-After ⊥ _ (run_turn d ch rounds (detecting received now) s) _
        (run_turn-Left received now s number ready)
        (λ s₁ (ready₁, same₁, goes₁).
          After-map ⊥ _ _ (run_turns d ch rounds (turns_of rs) s₁)
            (run_turns-Left rs s₁ numbers ready₁)
            (λ s' (ready', same', goes').
              (ready', same' ∙ same₁, Goes-trans ch s.store s₁.store s'.store goes₁ goes')))

  -- From a ready state (the initial members have been found, the watchlist holds one at most, every
  -- handle of the watchlist, the windows and the alerts points at a member, the lists hold members of
  -- their class with their one attribute, each window has one buffer for it, and two values at least
  -- fit into a buffer), the detecting thread never fails where the channels deliver numbers: however
  -- many turns it takes, all of them return, the watchlist is the same, each handle that pointed at a
  -- member still does, the member behind it has the same key and the same members before it, and the
  -- state is ready again.
  pub run_turns-returns :
      (rs : List Detection) (s : System d)
      → All (λ r. AreNumerical r.0) rs
      → IsReadySystem s
      → (s' : System d) × (run_turns d ch rounds (turns_of rs) s ≡ ok s')
        × IsReadySystem s'
        × (s'.builder.watchlist ≡ s.builder.watchlist)
        × ((q : MemberPtr) → IsLive s.store q → IsLive s'.store q)
        × HasSameOutlines s.store s'.store
  run_turns-returns rs s numbers ready =
      let (s', ran, (ready', same, goes)) =
        After-returns (Left s) (run_turns d ch rounds (turns_of rs) s)
          (run_turns-Left rs s numbers ready) in
      (s', ran, ready', same, goes.1, goes.2)
