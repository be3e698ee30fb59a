-- ===== src/FaultDetection/Watching.antt =====
-- The watchlist and the windows under a whole round of fault-detection.cpp.
use stream_fdl.Prelude.{
  ℕ, String, ◌≡◌, sym, ap, ◌∙◌, subst, Bool, true, false, Option, none, some, List, [], ◌∷◌,
  if◌then◌else◌, dangling, ok, fault, >>=-eq-ok, ok-injective,
}
use stream_fdl.Prelude.Double.{Double}
use stream_fdl.AtomicCounter.{increase, decrease}
use stream_fdl.CircularBuffer.{full}
use stream_fdl.MemberPtr.{MemberPtr}
use stream_fdl.Members.{Timestamp, base_of}
use stream_fdl.Members.Attributes.{Response}
use stream_fdl.DataStore.{Channel, DataStore, adjust_counter, member_at}
use stream_fdl.DataStore.Lookup.{NewIsValid}
use stream_fdl.Watchlist.{
  Watchlist, InternalMembers, get_members, copy_all, try_initialise, notify_used,
}
use stream_fdl.Watchlist.Runs.{IsSingle, notify_used-same, try_initialise-IsSingle}
use stream_fdl.FaultDetection.{Alert, FaultDetection, AttributeWindow, MemberWindow, first_value}
use stream_fdl.FaultDetection.Round.{
  check_entry, check_window, check_windows, after_check, update_windows, destroy_handles, run_round,
}
use stream_fdl.FaultDetection.Windows.{
  IsValidHandles, IsSingleWindow, update_windows-IsSingleWindow,
}

copy_all-IsValidHandles :
    {V : Type 0} (ms : InternalMembers) (ds ds' : DataStore V) (ps : List MemberPtr)
    → IsSingle ms
    → copy_all ms ds ≡ ok (ps, ds')
    → IsValidHandles ps
unfolding copy_all
copy_all-IsValidHandles [] ds ds' ps s h = subst IsValidHandles (ap (λ o. o.0) (ok-injective h)) tt
copy_all-IsValidHandles ((p, t) ∷ []) ds ds' ps s h =
    let (ds₁, run, kept) = >>=-eq-ok (adjust_counter increase p ds) _ h in
    subst IsValidHandles (ap (λ o. o.0) (ok-injective kept)) (s.0, tt)
copy_all-IsValidHandles (m ∷ m' ∷ ms) ds ds' ps s h = absurd s

module _ (d : Double) (received : String → Option (Response d.Value))
    (now : MemberPtr → Timestamp) where
  after_check-keeps :
      (p : MemberPtr) (as' as'' : List Alert) (w w' : Watchlist) (ds ds' : DataStore d.Value)
      (used : Bool)
      → IsSingle w.members
      → after_check d received now p (as', ds) w ≡ ok (used, as'', w', ds')
      → (w' ≡ w) × (used ≡ false)
  unfolding after_check
  after_check-keeps p as' as'' w w' ds ds' used s h =
      let (m, read, h₁) =
        >>=-eq-ok (elim (member_at ds p) [ none ↦ fault dangling | some m ↦ ok m ]) _ h in
      let ((w₁, ds₁, b), run, h₂) = >>=-eq-ok (notify_used (base_of m).primary_key w ds) _ h₁ in
      let (ds₂, released, kept) =
        >>=-eq-ok (if b then adjust_counter decrease p ds₁ else ok ds₁) _ h₂ in
      let (same, unused) = notify_used-same (base_of m).primary_key w w₁ ds ds₁ b s run in
      (
        sym (ap (λ o. o.2) (ok-injective kept)) ∙ same,
        sym (ap (λ o. o.0) (ok-injective kept)) ∙ unused,
      )

  check_entry-keeps :
      (b : Bool) (p : MemberPtr) (window : AttributeWindow d) (as' as'' : List Alert)
      (w w' : Watchlist) (ds ds' : DataStore d.Value) (used : Bool)
      → IsSingle w.members
      → check_entry d received now b p window as' w ds ≡ ok (used, as'', w', ds')
      → (w' ≡ w) × (used ≡ false)
  unfolding check_entry
  check_entry-keeps false p window as' as'' w w' ds ds' used s h =
      (sym (ap (λ o. o.2) (ok-injective h)), sym (ap (λ o. o.0) (ok-injective h)))
  check_entry-keeps true p window as' as'' w w' ds ds' used s h =
      let ((as₁, ds₁), run, rest) = >>=-eq-ok (check_window d received now p window as' ds) _ h in
      after_check-keeps p as₁ as'' w w' ds₁ ds' used s rest

  -- No window is erased, since no watched member is of the type for blind spots.
  check_windows-keeps :
      (ws ws' : MemberWindow d) (as' as'' : List Alert) (w w' : Watchlist)
      (ds ds' : DataStore d.Value)
      → IsSingle w.members
      → check_windows d received now ws as' w ds ≡ ok (ws', as'', w', ds')
      → (ws' ≡ ws) × (w' ≡ w)
  unfolding check_windows
  check_windows-keeps [] ws' as' as'' w w' ds ds' s h =
      (sym (ap (λ o. o.0) (ok-injective h)), sym (ap (λ o. o.2) (ok-injective h)))
  check_windows-keeps ((p, window) ∷ ws) ws' as' as'' w w' ds ds' s h =
      let (buffer, r₁, h₁) = >>=-eq-ok (first_value window) _ h in
      let ((used, as₁, w₁, ds₁), r₂, h₂) =
        >>=-eq-ok (check_entry d received now (full buffer) p window as' w ds) _ h₁ in
      let ((ws₂, as₂, w₂, ds₂), r₃, kept) =
        >>=-eq-ok (check_windows d received now ws as₁ w₁ ds₁) _ h₂ in
      let (same, unused) = check_entry-keeps (full buffer) p window as' as₁ w w₁ ds ds₁ used s r₂ in
      let (rest, same') =
        check_windows-keeps ws ws₂ as₁ as₂ w₁ w₂ ds₁ ds₂
          (subst IsSingle (ap Watchlist.members (sym same)) s) r₃ in
      (
        sym (ap (λ o. o.0) (ok-injective kept))
            ∙ ap (λ b. if b then ws₂ else (p, window) ∷ ws₂) unused
            ∙ ap (λ v. (p, window) ∷ v) rest,
        sym (ap (λ o. o.2) (ok-injective kept)) ∙ same' ∙ same,
      )

  -- A round of the detection leaves at most one member on the watchlist and at most one window.
  pub run_round-IsSingleWindow :
      (ch : Channel d.Value) (rounds : ℕ) (fd fd' : FaultDetection d) (w w' : Watchlist)
      (ds ds' : DataStore d.Value)
      → NewIsValid ch
      → IsSingle w.members
      → IsSingleWindow d fd.moving_window
      → run_round d received now ch rounds fd w ds ≡ ok (fd', w', ds')
      → IsSingle w'.members × IsSingleWindow d fd'.moving_window
  unfolding run_round get_members
  run_round-IsSingleWindow ch rounds fd fd' w w' ds ds' valid s one h =
      let ((w₁, ds₁, ps), got, h₁) = >>=-eq-ok (get_members ch rounds w ds) _ h in
      let ((w₀, ds₀), tried, got₁) = >>=-eq-ok (try_initialise ch rounds w ds) _ got in
      let ((ps₀, ds₀'), copied, got₂) = >>=-eq-ok (copy_all w₀.members ds₀) _ got₁ in
      let s₀ = try_initialise-IsSingle ch rounds valid w w₀ ds ds₀ s tried in
      let s₁ : IsSingle w₁.members =
        subst IsSingle (ap (λ o. o.0.members) (ok-injective got₂)) s₀ in
      let handles : IsValidHandles ps =
        subst IsValidHandles (ap (λ o. o.2) (ok-injective got₂))
          (copy_all-IsValidHandles w₀.members ds₀ ds₀' ps₀ s₀ copied) in
      let ((ws, ds₂, left), updated, h₂) =
        >>=-eq-ok (update_windows d received fd.moving_window_size ps fd.moving_window ds₁) _ h₁ in
      let one₁ =
        update_windows-IsSingleWindow d received fd.moving_window_size ps fd.moving_window ws ds₁
          ds₂ left handles one updated in
      let ((ws', as', w₂, ds₃), tested, h₃) =
        >>=-eq-ok (check_windows d received now ws fd.alerts w₁ ds₂) _ h₂ in
      let (ds₄, destroyed, kept) = >>=-eq-ok (destroy_handles d received now left ds₃) _ h₃ in
      let (same, same') = check_windows-keeps ws ws' fd.alerts as' w₁ w₂ ds₂ ds₃ s₁ tested in
      (
        subst IsSingle
            (ap Watchlist.members (sym same') ∙ ap (λ o. o.1.members) (ok-injective kept)) s₁,
        subst (IsSingleWindow d) (sym same ∙ ap (λ o. o.0.moving_window) (ok-injective kept)) one₁,
      )
