-- ===== src/FaultDetection/Pooled.antt =====
-- Where the attributes of the members go in a round of fault-detection.cpp: the map of windows takes
-- every two valid handles for one key.
use stream_fdl.Prelude.{
  ℕ, String, ◌≡◌, refl, inl, inr, false, Option, some, List, [], ◌∷◌, arith, ◌==◌, Outcome,
  Outcome-cases, >>=-ok-ok, ok, ◌>>=◌,
}
use stream_fdl.Prelude.Double.{Double}
use stream_fdl.StdMap
use stream_fdl.MemberPtr.{MemberPtr, null}
use stream_fdl.Members.Attributes.{Response}
use stream_fdl.DataStore.{DataStore}
use stream_fdl.Watchlist.{ptr_less}
use stream_fdl.FaultDetection.{AttributeWindow, update_attr_window}
use stream_fdl.FaultDetection.Round.{
  place_attributes, member_attributes, update_member, update_windows,
}
use stream_fdl.FaultDetection.Windows.{IsValidHandles}

module _ (d : Double) (received : String → Option (Response d.Value)) where
  -- The attributes of all members, entered into one window.
  unfoldable pub pool :
      List MemberPtr
      → AttributeWindow d
      → DataStore d.Value
      → Outcome (AttributeWindow d × DataStore d.Value)
  pool [] window ds = ok (window, ds)
  pool (p ∷ ps) window ds = do
    (ds', attributes) ← member_attributes d received p ds
    window' ← update_attr_window d attributes window
    pool ps window' ds'

  -- Another valid handle finds the only window there is.
  find-other :
      (p q : MemberPtr) (window : AttributeWindow d)
      → (p == null) ≡ false
      → (q == null) ≡ false
      → StdMap.find ptr_less p ((q, window) ∷ []) ≡ some window
  unfolding StdMap.find StdMap.equivalent ptr_less
  find-other p q window n m = ground arith

  modify-other :
      (p q : MemberPtr) (window window' : AttributeWindow d)
      → (p == null) ≡ false
      → (q == null) ≡ false
      → StdMap.modify ptr_less p (λ _. window') ((q, window) ∷ []) ≡ (q, window') ∷ []
  unfolding StdMap.modify StdMap.equivalent ptr_less
  modify-other p q window window' n m = ground arith

  -- Where the map of windows has one entry, with a valid handle, and the members of the round are valid handles,
  -- the loop that updates the windows enters the attributes of all members, in order, into that one
  -- window, and fails exactly as these updates fail; no member gets a window of its own, and all
  -- handles of the round are left over.
  pub update_windows-pool :
      (n : ℕ) (ps : List MemberPtr) (q : MemberPtr) (window : AttributeWindow d)
      (ds : DataStore d.Value)
      → IsValidHandles ps
      → (q == null) ≡ false
      → update_windows d received n ps ((q, window) ∷ []) ds
        ≡ (pool ps window ds >>= λ (window', ds'). ok ((q, window') ∷ [], ds', ps))
  unfolding update_windows update_member place_attributes pool
  update_windows-pool n [] q window ds valid m = refl
  update_windows-pool n (p ∷ ps) q window ds (v, valid) m =
      elim (Outcome-cases (member_attributes d received p ds)) [
        | inr (f, failed) ↦ rw failed
        | inl ((ds', attributes), taken) ↦
            elim (Outcome-cases (update_attr_window d attributes window)) [
              | inr (f, failed) ↦ rw (taken, find-other p q window v m, failed)
              | inl (window', entered) ↦
                  rw
                    (
                      taken,
                      find-other p q window v m,
                      entered,
                      modify-other p q window window' v m,
                      update_windows-pool n ps q window' ds' valid m,
                    )
                    (>>=-ok-ok (pool ps window' ds') (λ x. ((q, x.0) ∷ [], x.1, ps))
                      (λ x. (x.0, x.1, p ∷ x.2)))
            ]
      ]
