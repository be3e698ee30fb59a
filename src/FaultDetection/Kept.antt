-- ===== src/FaultDetection/Kept.antt =====
-- What a round of fault-detection.cpp and the other operations of the detection keep of the store.
use stream_fdl.Prelude.{
  ℕ, String, Bool, true, false, Option, none, some, List, [], ◌∷◌, if◌then◌else◌, dangling, ok,
  fault,
}
use stream_fdl.Prelude.After.{Any, After, >>=-After, if-After, Outcome-After}
use stream_fdl.Prelude.Double.{Double}
use stream_fdl.AtomicCounter.{AtomicCounter, increase, decrease}
use stream_fdl.StdMap
use stream_fdl.CircularBuffer.{full}
use stream_fdl.MemberPtr.{MemberPtr}
use stream_fdl.Members.{Timestamp, base_of}
use stream_fdl.Members.Attributes.{Response}
use stream_fdl.DataStore.{Channel, DataStore, member_at, adjust_counter}
use stream_fdl.DataStore.Kept.{IsKept}
use stream_fdl.Watchlist.{Watchlist, ptr_less, get_members, notify_used}
use stream_fdl.Watchlist.Kept.{get_members-After, notify_used-After}
use stream_fdl.FaultDetection.{
  Alert, AttributeWindow, MemberWindow, FaultDetection, first_value, detect_faults, adjust_alerts,
  get_emitted_alerts, destroy_window, reset,
}
use stream_fdl.FaultDetection.Round.{
  member_attributes, place_attributes, update_member, update_windows, emit, check_window,
  after_check, check_entry, check_windows, destroy_handles, run_round,
}

-- A read of a member's attributes keeps the store as `I` says.
abbrev pub IsRefreshed : (d : Double) → (DataStore d.Value → Type 0) → Type 0
IsRefreshed d I =
    (received : String → Option (Response d.Value)) (p : MemberPtr) (ds : DataStore d.Value)
    → I ds
    → After Any (λ r. I r.0) (member_attributes d received p ds)

module _ (d : Double) (ch : Channel d.Value) (rounds : ℕ) (I : DataStore d.Value → Type 0)
    (kept : IsKept ch rounds I) where
  adjust_alerts-After :
      (f : AtomicCounter → AtomicCounter) (alerts : List Alert) (ds : DataStore d.Value)
      → I ds
      → After Any I (adjust_alerts d (λ ds' p. adjust_counter f p ds') alerts ds)
  unfolding adjust_alerts
  adjust_alerts-After f [] ds i = i
  adjust_alerts-After f (a ∷ as') ds i =
      >>=-After Any I (adjust_counter f a.member ds) _ (kept.counting f a.member ds i)
        (λ ds' i'. adjust_alerts-After f as' ds' i')

  pub get_emitted_alerts-After :
      (fd : FaultDetection d) (ds : DataStore d.Value)
      → I ds
      → After Any (λ r. I r.1) (get_emitted_alerts d fd ds)
  unfolding get_emitted_alerts
  get_emitted_alerts-After fd ds i =
      >>=-After Any _ (adjust_alerts d (λ ds' p. adjust_counter increase p ds') fd.alerts ds) _
        (adjust_alerts-After increase fd.alerts ds i)
        (λ copied i'.
          >>=-After Any _
            (adjust_alerts d (λ ds' p. adjust_counter decrease p ds') fd.alerts copied) _
            (adjust_alerts-After decrease fd.alerts copied i') (λ cleared i''. i''))

  destroy_window-After :
      (m : MemberWindow d) (ds : DataStore d.Value) → I ds → After Any I (destroy_window d m ds)
  unfolding destroy_window
  destroy_window-After [] ds i = i
  destroy_window-After ((p, window) ∷ m) ds i =
      >>=-After Any I (adjust_counter decrease p ds) _ (kept.counting decrease p ds i)
        (λ ds' i'. destroy_window-After m ds' i')

  pub reset-After :
      (fd : FaultDetection d) (ds : DataStore d.Value)
      → I ds
      → After Any (λ r. I r.1) (reset d fd ds)
  unfolding reset
  reset-After fd ds i =
      >>=-After Any _ (destroy_window d fd.moving_window ds) _
        (destroy_window-After fd.moving_window ds i) (λ ds' i'. i')

  module _ (refreshed : IsRefreshed d I) (received : String → Option (Response d.Value)) where
    update_member-After :
        (n : ℕ) (p : MemberPtr) (windows : MemberWindow d) (ds : DataStore d.Value)
        → I ds
        → After Any (λ r. I r.1) (update_member d received n p windows ds)
    unfolding update_member
    update_member-After n p windows ds i =
        >>=-After Any _ (member_attributes d received p ds) _ (refreshed received p ds i) (λ r i'.
          >>=-After Any _
            (place_attributes d received n p r.1 (StdMap.find ptr_less p windows) windows) _
            (Outcome-After _) (λ _ _. i'))

    update_windows-After :
        (n : ℕ) (ps : List MemberPtr) (windows : MemberWindow d) (ds : DataStore d.Value)
        → I ds
        → After Any (λ r. I r.1) (update_windows d received n ps windows ds)
    unfolding update_windows
    update_windows-After n [] windows ds i = i
    update_windows-After n (p ∷ ps) windows ds i =
        >>=-After Any _ (update_member d received n p windows ds) _
          (update_member-After n p windows ds i)
          (λ r i'.
            >>=-After Any _ (update_windows d received n ps r.0 r.1) _
              (update_windows-After n ps r.0 r.1 i') (λ _ i''. i''))

    module _ (now : MemberPtr → Timestamp) where
      emit-After :
          (found : Bool) (alert : Alert) (alerts : List Alert) (ds : DataStore d.Value)
          → I ds
          → After Any (λ r. I r.1) (emit d received now found alert alerts ds)
      unfolding emit
      emit-After true alert alerts ds i = i
      emit-After false alert alerts ds i =
          >>=-After Any _ (adjust_counter decrease alert.member ds) _
            (kept.counting decrease alert.member ds i) (λ _ i'. i')

      check_window-After :
          (p : MemberPtr) (window : AttributeWindow d) (alerts : List Alert)
          (ds : DataStore d.Value)
          → I ds
          → After Any (λ r. I r.1) (check_window d received now p window alerts ds)
      unfolding check_window
      check_window-After p window alerts ds i =
          >>=-After Any _ (adjust_counter increase p ds) _ (kept.counting increase p ds i)
            (λ copied i₁.
              >>=-After Any _ (adjust_counter increase p copied) _
                (kept.counting increase p copied i₁)
                (λ assigned i₂.
                  >>=-After Any _ (elim (member_at ds p) [ none ↦ fault dangling | some m ↦ ok m ])
                    _ (Outcome-After _)
                    (λ member _.
                      >>=-After Any _ (detect_faults d member window) _ (Outcome-After _) (λ r _.
                        >>=-After Any _ (adjust_counter decrease p assigned) _
                          (kept.counting decrease p assigned i₂)
                          (λ returned i₃. emit-After r.0 _ alerts returned i₃)))))

      after_check-After :
          (p : MemberPtr) (alerts : List Alert) (ds : DataStore d.Value) (w : Watchlist)
          → I ds
          → After Any (λ r. I r.3) (after_check d received now p (alerts, ds) w)
      unfolding after_check
      after_check-After p alerts ds w i =
          >>=-After Any _ (elim (member_at ds p) [ none ↦ fault dangling | some m ↦ ok m ]) _
            (Outcome-After _)
            (λ member _.
              >>=-After Any _ (notify_used (base_of member).primary_key w ds) _
                (notify_used-After ch rounds I kept (base_of member).primary_key w ds i)
                (λ r i'.
                  >>=-After Any _ (if r.2 then adjust_counter decrease p r.1 else ok r.1) _
                    (if-After Any I r.2 _ _ (kept.counting decrease p r.1 i') i') (λ _ i''. i'')))

      check_entry-After :
          (is_full : Bool) (p : MemberPtr) (window : AttributeWindow d) (alerts : List Alert)
          (w : Watchlist) (ds : DataStore d.Value)
          → I ds
          → After Any (λ r. I r.3) (check_entry d received now is_full p window alerts w ds)
      unfolding check_entry
      check_entry-After false p window alerts w ds i = i
      check_entry-After true p window alerts w ds i =
          >>=-After Any _ (check_window d received now p window alerts ds) _
            (check_window-After p window alerts ds i) (λ r i'. after_check-After p r.0 r.1 w i')

      check_windows-After :
          (windows : MemberWindow d) (alerts : List Alert) (w : Watchlist) (ds : DataStore d.Value)
          → I ds
          → After Any (λ r. I r.3) (check_windows d received now windows alerts w ds)
      unfolding check_windows
      check_windows-After [] alerts w ds i = i
      check_windows-After ((p, window) ∷ windows) alerts w ds i =
          >>=-After Any _ (first_value window) _ (Outcome-After _) (λ buffer _.
            >>=-After Any _ (check_entry d received now (full buffer) p window alerts w ds) _
              (check_entry-After (full buffer) p window alerts w ds i)
              (λ r i'.
                >>=-After Any _ (check_windows d received now windows r.1 r.2 r.3) _
                  (check_windows-After windows r.1 r.2 r.3 i') (λ _ i''. i'')))

      destroy_handles-After :
          (ps : List MemberPtr) (ds : DataStore d.Value)
          → I ds
          → After Any I (destroy_handles d received now ps ds)
      unfolding destroy_handles
      destroy_handles-After [] ds i = i
      destroy_handles-After (p ∷ ps) ds i =
          >>=-After Any I (adjust_counter decrease p ds) _ (kept.counting decrease p ds i)
            (λ ds' i'. destroy_handles-After ps ds' i')

      pub run_round-After :
          (fd : FaultDetection d) (w : Watchlist) (ds : DataStore d.Value)
          → I ds
          → After Any (λ r. I r.2) (run_round d received now ch rounds fd w ds)
      unfolding run_round
      run_round-After fd w ds i =
          >>=-After Any _ (get_members ch rounds w ds) _ (get_members-After ch rounds I kept w ds i)
            (λ r i₁.
              >>=-After Any _
                (update_windows d received fd.moving_window_size r.2 fd.moving_window r.1) _
                (update_windows-After fd.moving_window_size r.2 fd.moving_window r.1 i₁)
                (λ u i₂.
                  >>=-After Any _ (check_windows d received now u.0 fd.alerts r.0 u.1) _
                    (check_windows-After u.0 fd.alerts r.0 u.1 i₂)
                    (λ c i₃.
                      >>=-After Any _ (destroy_handles d received now u.2 c.3) _
                        (destroy_handles-After u.2 c.3 i₃) (λ _ i₄. i₄))))
