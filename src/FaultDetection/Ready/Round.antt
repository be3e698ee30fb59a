-- ===== src/FaultDetection/Ready/Round.antt =====
-- Rounds of fault-detection.cpp that return, one after the other.
use stream_fdl.Prelude.{ℕ, String, ◌≡◌, refl, ap, ◌∙◌, true, Option, List, [], ◌∷◌, leb}
use stream_fdl.Prelude.After.{After, After-map, >>=-After}
use stream_fdl.Prelude.All.{All}
use stream_fdl.Prelude.Double.{Double}
use stream_fdl.AtomicCounter.{increase, decrease}
use stream_fdl.MemberPtr.{MemberPtr}
use stream_fdl.Members.{Timestamp}
use stream_fdl.Members.Attributes.{Response}
use stream_fdl.DataStore.{Channel, DataStore, adjust_counter}
use stream_fdl.DataStore.Live.{IsLive}
use stream_fdl.DataStore.Typed.{IsTyped}
use stream_fdl.Watchlist.{
  Watchlist, InternalMembers, initialise_loop, try_initialise, get_members, copy_all,
}
use stream_fdl.Watchlist.Runs.{IsSingle}
use stream_fdl.Watchlist.Adding.{AreLive}
use stream_fdl.FaultDetection.{FaultDetection}
use stream_fdl.FaultDetection.Round.{update_windows, check_windows, destroy_handles, run_round}
use stream_fdl.FaultDetection.Ready.{
  Goes-refl, Goes, Goes-trans, AreAlerts, AreLive-Goes, AllLive-Goes, adjust_counter-Goes,
}
use stream_fdl.FaultDetection.Ready.Attributes.{AreNumerical}
use stream_fdl.FaultDetection.Ready.Windows.{AreWindows, AreWindows-Goes, update_windows-AreWindows}
use stream_fdl.FaultDetection.Ready.Checking.{check_windows-Checked}

module _ (d : Double) (ch : Channel d.Value) where
  -- The initial members have been found, and every handle of the watchlist, the windows and the
  -- alerts points at a member; each window has one buffer, for the attribute, with a current value.
  pub record IsReady (fd : FaultDetection d) (w : Watchlist) (ds : DataStore d.Value) : Type 0 where
    pub typed : IsTyped ch ds
    pub named : w.initial_member_names ≡ []
    pub single : IsSingle w.members
    pub watched : AreLive ds w.members
    pub windows : AreWindows d ch ds fd.moving_window
    pub alerts : AreAlerts ds fd.alerts
    pub roomy : leb 2 fd.moving_window_size ≡ true

module _ (d : Double) (ch : Channel d.Value) (received : String → Option (Response d.Value))
    (numbers : AreNumerical received) (now : MemberPtr → Timestamp) where
  copy_all-Goes :
      (ms : InternalMembers) (ds : DataStore d.Value)
      → IsTyped ch ds
      → AreLive ds ms
      → After ⊥ (λ r. Goes ch ds r.1 × All (IsLive r.1) r.0) (copy_all ms ds)
  unfolding copy_all
  copy_all-Goes [] ds typed live = (Goes-refl ch ds typed, tt)
  copy_all-Goes ((p, t) ∷ ms) ds typed (n, at, live) =
      >>=-After ⊥ _ (adjust_counter increase p ds) _ (adjust_counter-Goes ch increase p ds typed at)
        (λ ds' goes.
          >>=-After ⊥ _ (copy_all ms ds') _
            (copy_all-Goes ms ds' goes.0 (AreLive-Goes ch ds ds' ms goes live))
            (λ r (goes', lives).
              (Goes-trans ch ds ds' r.1 goes goes', (goes'.1 p (goes.1 p at), lives))))

  get_members-Goes :
      (rounds : ℕ) (w : Watchlist) (ds : DataStore d.Value)
      → w.initial_member_names ≡ []
      → IsTyped ch ds
      → AreLive ds w.members
      → After ⊥
          (λ r. (r.0 ≡ w) × Goes ch ds r.1 × All (IsLive r.1) r.2)
          (get_members ch rounds w ds)
  unfolding get_members try_initialise initialise_loop
  get_members-Goes rounds w ds named typed watched = rw named (
      >>=-After ⊥ _ (copy_all w.members ds) _ (copy_all-Goes w.members ds typed watched)
        (λ r (goes, lives). (refl, goes, lives)))

  destroy_handles-Goes :
      (ps : List MemberPtr) (ds : DataStore d.Value)
      → IsTyped ch ds
      → All (IsLive ds) ps
      → After ⊥ (Goes ch ds) (destroy_handles d received now ps ds)
  unfolding destroy_handles
  destroy_handles-Goes [] ds typed lives = Goes-refl ch ds typed
  destroy_handles-Goes (p ∷ ps) ds typed (live, lives) =
      >>=-After ⊥ _ (adjust_counter decrease p ds) _
        (adjust_counter-Goes ch decrease p ds typed live)
        (λ ds' goes.
          After-map ⊥ _ _ (destroy_handles d received now ps ds')
            (destroy_handles-Goes ps ds' goes.0 (AllLive-Goes ch (λ q. q) ds ds' ps goes lives))
            (λ ds'' goes'. Goes-trans ch ds ds' ds'' goes goes'))

  pub run_round-IsReady :
      (rounds : ℕ) (fd : FaultDetection d) (w : Watchlist) (ds : DataStore d.Value)
      → IsReady d ch fd w ds
      → After ⊥
          (λ r. (r.1 ≡ w) × IsReady d ch r.0 r.1 r.2 × Goes ch ds r.2)
          (run_round d received now ch rounds fd w ds)
  unfolding run_round
  run_round-IsReady rounds fd w ds ready =
      >>=-After ⊥ _ (get_members ch rounds w ds) _
        (get_members-Goes rounds w ds ready.named ready.typed ready.watched)
        (λ r (same, goes₁, lives₁).
          >>=-After ⊥ _ (update_windows d received fd.moving_window_size r.2 fd.moving_window r.1) _
            (update_windows-AreWindows d ch received numbers fd.moving_window_size r.2
              fd.moving_window r.1 ready.roomy goes₁.0 lives₁
              (AreWindows-Goes d ch ds r.1 fd.moving_window goes₁ ready.windows))
            (λ u (goes₂', all₂, left).
              let goes₂ = Goes-trans ch ds r.1 u.1 goes₁ goes₂' in
              rw same (
                >>=-After ⊥ _ (check_windows d received now u.0 fd.alerts w u.1) _
                  (check_windows-Checked d ch received numbers now u.0 fd.alerts w u.1 goes₂.0 all₂
                    ready.single (AreLive-Goes ch ds u.1 w.members goes₂ ready.watched)
                    (AllLive-Goes ch (λ a. a.member) ds u.1 fd.alerts goes₂ ready.alerts))
                  (λ c (kept, (same', goes₃', lives₃)).
                    let goes₃ = Goes-trans ch ds u.1 c.3 goes₂ goes₃' in
                    >>=-After ⊥ _ (destroy_handles d received now u.2 c.3) _
                      (destroy_handles-Goes u.2 c.3 goes₃.0
                        (AllLive-Goes ch (λ q. q) u.1 c.3 u.2 goes₃' left))
                      (λ ds₄ goes₄'.
                        let goes₄ = Goes-trans ch ds c.3 ds₄ goes₃ goes₄' in
                        let goes_back = Goes-trans ch u.1 c.3 ds₄ goes₃' goes₄' in
                        (
                          same',
                          record {
                            typed = goes₄.0;
                            named = ap Watchlist.initial_member_names same' ∙ ready.named;
                            single = rw same' ready.single;
                            watched =
                                rw same' (AreLive-Goes ch ds ds₄ w.members goes₄ ready.watched);
                            windows = rw kept (AreWindows-Goes d ch u.1 ds₄ u.0 goes_back all₂);
                            alerts = AllLive-Goes ch (λ a. a.member) c.3 ds₄ c.1 goes₄' lives₃;
                            roomy = ready.roomy;
                          },
                          goes₄,
                        ))))))
