-- ===== src/FaultDetection/Ready/Checking.antt =====
-- The second loop of a round of fault-detection.cpp.
use stream_fdl.Prelude.{
  String, ◌≡◌, refl, sym, ap, subst, inr, Bool, true, false, Option, List, [], ◌∷◌, ok,
}
use stream_fdl.Prelude.After.{Any, After, After-map, >>=-After}
use stream_fdl.Prelude.All.{All-append}
use stream_fdl.Prelude.Double.{Double}
use stream_fdl.AtomicCounter.{increase, decrease}
use stream_fdl.CircularBuffer.{full}
use stream_fdl.MemberPtr.{MemberPtr}
use stream_fdl.Members.{Timestamp, Member, base_of}
use stream_fdl.Members.Attributes.{Response}
use stream_fdl.DataStore.{Channel, DataStore, adjust_counter}
use stream_fdl.DataStore.Live.{IsLive}
use stream_fdl.DataStore.Typed.{IsTyped}
use stream_fdl.Watchlist.{Watchlist}
use stream_fdl.Watchlist.Runs.{IsSingle}
use stream_fdl.Watchlist.Adding.{AreLive}
use stream_fdl.Watchlist.Notified.{notify_used-unused}
use stream_fdl.FaultDetection.{Alert, AttributeWindow, MemberWindow, first_value, detect_faults}
use stream_fdl.FaultDetection.Detection.{AllReadable, detect_faults-outliers}
use stream_fdl.FaultDetection.Round.{emit, check_window, after_check, check_entry, check_windows}
use stream_fdl.FaultDetection.Ready.{
  Goes-refl, Goes, Goes-trans, AreAlerts, AreLive-Goes, AllLive-Goes, adjust_counter-Goes,
}
use stream_fdl.FaultDetection.Ready.Attributes.{AreNumerical}
use stream_fdl.FaultDetection.Ready.Windows.{IsUsable, AreWindows, AreWindows-Goes}

module _ (d : Double) (ch : Channel d.Value) (received : String → Option (Response d.Value))
    (numbers : AreNumerical received) (now : MemberPtr → Timestamp) where
  emit-Goes :
      (found : Bool) (alert : Alert) (alerts : List Alert) (ds : DataStore d.Value)
      → IsTyped ch ds
      → IsLive ds alert.member
      → AreAlerts ds alerts
      → After ⊥
          (λ r. Goes ch ds r.1 × AreAlerts r.1 r.0)
          (emit d received now found alert alerts ds)
  unfolding emit
  emit-Goes true alert alerts ds typed live lives =
      (Goes-refl ch ds typed, All-append _ alerts (alert ∷ []) lives (live, tt))
  emit-Goes false alert alerts ds typed live lives =
      >>=-After ⊥ _ (adjust_counter decrease alert.member ds) _
        (adjust_counter-Goes ch decrease alert.member ds typed live)
        (λ ds' goes. (goes, AllLive-Goes ch (λ a. a.member) ds ds' alerts goes lives))

  readable :
      (window : AttributeWindow d) → IsUsable d ch.cpu_utilisation window → AllReadable d window
  readable window (b, is, inside) = subst (AllReadable d) (sym is) (inr inside, tt)

  detect_faults-returns :
      (member : Member d.Value) (window : AttributeWindow d)
      → IsUsable d ch.cpu_utilisation window
      → After ⊥ (λ r. Any) (detect_faults d member window)
  detect_faults-returns member window usable =
      rw (detect_faults-outliers d member window (readable window usable)) tt

  check_window-Goes :
      (p : MemberPtr) (window : AttributeWindow d) (alerts : List Alert) (ds : DataStore d.Value)
      → IsTyped ch ds
      → IsLive ds p
      → IsUsable d ch.cpu_utilisation window
      → AreAlerts ds alerts
      → After ⊥
          (λ r. Goes ch ds r.1 × AreAlerts r.1 r.0)
          (check_window d received now p window alerts ds)
  unfolding check_window
  check_window-Goes p window alerts ds typed live usable lives =
      >>=-After ⊥ _ (adjust_counter increase p ds) _
        (adjust_counter-Goes ch increase p ds typed live)
        (λ ds₁ goes₁.
          >>=-After ⊥ _ (adjust_counter increase p ds₁) _
            (adjust_counter-Goes ch increase p ds₁ goes₁.0 (goes₁.1 p live))
            (λ ds₂ goes₂'.
              let goes₂ = Goes-trans ch ds ds₁ ds₂ goes₁ goes₂' in
              rw live.1 (
                >>=-After ⊥ _ (detect_faults d live.0 window) _
                  (detect_faults-returns live.0 window usable)
                  (λ r _.
                    >>=-After ⊥ _ (adjust_counter decrease p ds₂) _
                      (adjust_counter-Goes ch decrease p ds₂ goes₂.0 (goes₂.1 p live))
                      (λ ds₃ goes₃'.
                        let goes₃ = Goes-trans ch ds ds₂ ds₃ goes₂ goes₃' in
                        After-map ⊥ _ _ (emit d received now r.0 _ alerts ds₃)
                          (emit-Goes r.0 _ alerts ds₃ goes₃.0 (goes₃.1 p live)
                            (AllLive-Goes ch (λ a. a.member) ds ds₃ alerts goes₃ lives))
                          (λ e (goes₄, lives'). (Goes-trans ch ds ds₃ e.1 goes₃ goes₄, lives')))))))

  after_check-unused :
      (p : MemberPtr) (alerts : List Alert) (w : Watchlist) (ds : DataStore d.Value)
      → IsLive ds p
      → IsSingle w.members
      → AreLive ds w.members
      → after_check d received now p (alerts, ds) w ≡ ok (false, alerts, w, ds)
  unfolding after_check
  after_check-unused p alerts w ds live single watched =
      rw (live.1, notify_used-unused (base_of live.0).primary_key w ds single watched)

  -- What a check leaves: the watchlist as it was, and handles that are live.
  abbrev pub Checked :
      Watchlist → DataStore d.Value → List Alert → Watchlist → DataStore d.Value → Type 0
  Checked w ds alerts w' ds' = (w' ≡ w) × Goes ch ds ds' × AreAlerts ds' alerts

  check_entry-Checked :
      (is_full : Bool) (p : MemberPtr) (window : AttributeWindow d) (alerts : List Alert)
      (w : Watchlist) (ds : DataStore d.Value)
      → IsTyped ch ds
      → IsLive ds p
      → IsUsable d ch.cpu_utilisation window
      → IsSingle w.members
      → AreLive ds w.members
      → AreAlerts ds alerts
      → After ⊥
          (λ r. (r.0 ≡ false) × Checked w ds r.1 r.2 r.3)
          (check_entry d received now is_full p window alerts w ds)
  unfolding check_entry
  check_entry-Checked false p window alerts w ds typed live usable single watched lives =
      (refl, (refl, Goes-refl ch ds typed, lives))
  check_entry-Checked true p window alerts w ds typed live usable single watched lives =
      >>=-After ⊥ _ (check_window d received now p window alerts ds) _
        (check_window-Goes p window alerts ds typed live usable lives)
        (λ r (goes, lives').
          rw
            (after_check-unused p r.0 w r.1 (goes.1 p live) single
              (AreLive-Goes ch ds r.1 w.members goes watched))
            (refl, (refl, goes, lives')))

  pub check_windows-Checked :
      (windows : MemberWindow d) (alerts : List Alert) (w : Watchlist) (ds : DataStore d.Value)
      → IsTyped ch ds
      → AreWindows d ch ds windows
      → IsSingle w.members
      → AreLive ds w.members
      → AreAlerts ds alerts
      → After ⊥
          (λ r. (r.0 ≡ windows) × Checked w ds r.1 r.2 r.3)
          (check_windows d received now windows alerts w ds)
  unfolding check_windows
  check_windows-Checked [] alerts w ds typed all single watched lives =
      (refl, (refl, Goes-refl ch ds typed, lives))
  check_windows-Checked ((p, window) ∷ windows) alerts w ds typed ((live, (b, is, inside)), all)
        single watched lives =
      >>=-After ⊥ _ (first_value window) _
        (subst (λ v. After ⊥ (λ _. Any) (first_value v)) (sym is) tt)
        (λ buffer _.
          >>=-After ⊥ _ (check_entry d received now (full buffer) p window alerts w ds) _
            (check_entry-Checked (full buffer) p window alerts w ds typed live (b, is, inside)
              single watched lives)
            (λ r (kept, (same, goes, lives₁)).
              rw (kept, same)
                (>>=-After ⊥ _ (check_windows d received now windows r.1 w r.3) _
                  (check_windows-Checked windows r.1 w r.3 goes.0
                    (AreWindows-Goes d ch ds r.3 windows goes all) single
                    (AreLive-Goes ch ds r.3 w.members goes watched) lives₁)
                  (λ r' (rest, (same', goes', lives')). (
                    ap (λ v. (p, window) ∷ v) rest,
                    (same', Goes-trans ch ds r.3 r'.3 goes goes', lives'),
                  )))))
