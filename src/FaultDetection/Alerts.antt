-- ===== src/FaultDetection/Alerts.antt =====
-- Theorems on the alerts of fault-detection.cpp.
use stream_fdl.Prelude.{
  ℕ, suc, ◌+◌, ◌≤◌, String, ◌≡◌, refl, sym, ap, ◌∙◌, subst, Bool, true, false, Option, none, some,
  List, [], ◌∷◌, ◌++◌, arith, if◌then◌else◌, length, length-append, dangling, ok, fault, >>=-eq-ok,
  ok-injective,
}
use stream_fdl.Prelude.Double.{Double}
use mathlib.Core.List.{append-nil, append_assoc}
use stream_fdl.AtomicCounter.{increase, decrease}
use stream_fdl.MemberPtr.{MemberPtr}
use stream_fdl.CircularBuffer.{full}
use stream_fdl.Members.{Timestamp, base_of}
use stream_fdl.Members.Attributes.{Response}
use stream_fdl.DataStore.{DataStore, member_at, adjust_counter}
use stream_fdl.Watchlist.{Watchlist, notify_used}
use stream_fdl.FaultDetection.{
  Alert, AttributeWindow, MemberWindow, FaultDetection, first_value, detect_faults,
  get_emitted_alerts, adjust_alerts,
}
use stream_fdl.FaultDetection.Round.{after_check, check_entry, emit, check_window, check_windows}

module _ (d : Double) where
  -- Where `getEmittedAlerts` returns, it returns all alerts in the order of their detection and
  -- keeps none: a second call returns the empty list and changes nothing.
  pub get_emitted_alerts-once :
      (fd fd' : FaultDetection d) (ds ds' : DataStore d.Value) (out : List Alert)
      → get_emitted_alerts d fd ds ≡ ok (fd', ds', out)
      → (out ≡ fd.alerts) × (get_emitted_alerts d fd' ds' ≡ ok (fd', ds', []))
  unfolding get_emitted_alerts adjust_alerts
  get_emitted_alerts-once fd fd' ds ds' out h =
      let (copied, run, h₁) =
        >>=-eq-ok (adjust_alerts d (λ ds₀ p. adjust_counter increase p ds₀) fd.alerts ds) _ h in
      let (cleared, run', kept) =
        >>=-eq-ok (adjust_alerts d (λ ds₀ p. adjust_counter decrease p ds₀) fd.alerts copied) _
          h₁ in
      let same = ap (λ o. o.0) (ok-injective kept) in
      (
        sym (ap (λ o. o.2) (ok-injective kept)),
        subst (λ f. get_emitted_alerts d f ds' ≡ ok (f, ds', [])) same refl,
      )

  one_add : (n : ℕ) → 1 + n ≡ suc n
  one_add n = omega arith

  kept-≤ :
      (used : Bool) (p : MemberPtr) (window : AttributeWindow d) (ws ws' : MemberWindow d)
      → length ws' ≤ length ws
      → length (if used then ws' else (p, window) ∷ ws') ≤ suc (length ws)
  kept-≤ true p window ws ws' h = omega arith
  kept-≤ false p window ws ws' h = omega arith

  module _ (received : String → Option (Response d.Value)) (now : MemberPtr → Timestamp) where
    -- The list `alerts'` is `alerts` with at most `n` more behind.
    abbrev pub Appends : ℕ → List Alert → List Alert → Type 0
    Appends n alerts alerts' = (new : List Alert) × (alerts' ≡ alerts ++ new) × length new ≤ n

    emit-Appends :
        (b : Bool) (alert : Alert) (alerts alerts' : List Alert) (ds ds' : DataStore d.Value)
        → emit d received now b alert alerts ds ≡ ok (alerts', ds')
        → Appends 1 alerts alerts'
    unfolding emit
    emit-Appends true alert alerts alerts' ds ds' h =
        (alert ∷ [], sym (ap (λ o. o.0) (ok-injective h)), omega arith)
    emit-Appends false alert alerts alerts' ds ds' h =
        let (ds₁, run, kept) = >>=-eq-ok (adjust_counter decrease alert.member ds) _ h in
        ([], sym (ap (λ o. o.0) (ok-injective kept)) ∙ sym (append-nil alerts), omega arith)

    check_window-Appends :
        (p : MemberPtr) (window : AttributeWindow d) (alerts alerts' : List Alert)
        (ds ds' : DataStore d.Value)
        → check_window d received now p window alerts ds ≡ ok (alerts', ds')
        → Appends 1 alerts alerts'
    unfolding check_window
    check_window-Appends p window alerts alerts' ds ds' h =
        let (copied, r₁, h₁) = >>=-eq-ok (adjust_counter increase p ds) _ h in
        let (assigned, r₂, h₂) = >>=-eq-ok (adjust_counter increase p copied) _ h₁ in
        let (member, r₃, h₃) =
          >>=-eq-ok (elim (member_at ds p) [ none ↦ fault dangling | some m ↦ ok m ]) _ h₂ in
        let ((found, names), r₄, h₄) = >>=-eq-ok (detect_faults d member window) _ h₃ in
        let (returned, r₅, h₅) = >>=-eq-ok (adjust_counter decrease p assigned) _ h₄ in
        emit-Appends found _ alerts alerts' returned ds' h₅

    check_entry-Appends :
        (b : Bool) (p : MemberPtr) (window : AttributeWindow d) (alerts alerts' : List Alert)
        (w w' : Watchlist) (ds ds' : DataStore d.Value) (used : Bool)
        → check_entry d received now b p window alerts w ds ≡ ok (used, alerts', w', ds')
        → Appends 1 alerts alerts'
    unfolding check_entry after_check
    check_entry-Appends false p window alerts alerts' w w' ds ds' used h =
        ([], sym (ap (λ o. o.1) (ok-injective h)) ∙ sym (append-nil alerts), omega arith)
    check_entry-Appends true p window alerts alerts' w w' ds ds' used h =
        let ((alerts₁, ds₁), run, h₁) =
          >>=-eq-ok (check_window d received now p window alerts ds) _ h in
        let (member, r₂, h₂) =
          >>=-eq-ok (elim (member_at ds₁ p) [ none ↦ fault dangling | some m ↦ ok m ]) _ h₁ in
        let ((w₂, ds₂, used₂), r₃, h₃) =
          >>=-eq-ok (notify_used (base_of member).primary_key w ds₁) _ h₂ in
        let (ds₃, r₄, h₄) =
          >>=-eq-ok (if used₂ then adjust_counter decrease p ds₂ else ok ds₂) _ h₃ in
        subst (Appends 1 alerts) (ap (λ o. o.1) (ok-injective h₄))
          (check_window-Appends p window alerts alerts₁ ds ds₁ run)

    Appends-trans :
        (m n : ℕ) (xs ys zs : List Alert)
        → Appends m xs ys
        → Appends n ys zs
        → Appends (m + n) xs zs
    Appends-trans m n xs ys zs (new, e, b) (new', e', b') = (
      new ++ new',
      e' ∙ ap (λ v. v ++ new') e ∙ append_assoc xs new new',
      omega (arith, length-append new new', b, b'),
    )

    -- Where the loop over the windows returns, the list of alerts is the old one with at most one
    -- alert more for each window, and no more windows are left than there were.
    pub check_windows-Appends :
        (windows windows' : MemberWindow d) (alerts alerts' : List Alert) (w w' : Watchlist)
        (ds ds' : DataStore d.Value)
        → check_windows d received now windows alerts w ds ≡ ok (windows', alerts', w', ds')
        → Appends (length windows) alerts alerts' × length windows' ≤ length windows
    unfolding check_windows
    check_windows-Appends [] windows' alerts alerts' w w' ds ds' h = (
      ([], sym (ap (λ o. o.1) (ok-injective h)) ∙ sym (append-nil alerts), omega arith),
      subst (λ v. length v ≤ 0) (ap (λ o. o.0) (ok-injective h)) (omega arith),
    )
    check_windows-Appends ((p, window) ∷ windows) windows' alerts alerts' w w' ds ds' h =
        let (buffer, r₁, h₁) = >>=-eq-ok (first_value window) _ h in
        let ((used, alerts₁, w₁, ds₁), r₂, h₂) =
          >>=-eq-ok (check_entry d received now (full buffer) p window alerts w ds) _ h₁ in
        let ((windows₂, alerts₂, w₂, ds₂), r₃, h₃) =
          >>=-eq-ok (check_windows d received now windows alerts₁ w₁ ds₁) _ h₂ in
        let one = check_entry-Appends (full buffer) p window alerts alerts₁ w w₁ ds ds₁ used r₂ in
        let (rest, fewer) =
          check_windows-Appends windows windows₂ alerts₁ alerts₂ w₁ w₂ ds₁ ds₂ r₃ in
        (
          subst (λ n. Appends n alerts alerts') (one_add (length windows))
              (Appends-trans 1 (length windows) alerts alerts₁ alerts' one
                (subst (Appends (length windows) alerts₁) (ap (λ o. o.1) (ok-injective h₃)) rest)),
          subst (λ v. length v ≤ suc (length windows)) (ap (λ o. o.0) (ok-injective h₃))
              (kept-≤ used p window windows windows₂ fewer),
        )
