-- ===== src/FaultDetection/Ready/Windows.antt =====
-- The windows and the handles in the first loop of a round of fault-detection.cpp.
use stream_fdl.Prelude.{
  ℕ, ◌<◌, String, ◌≡◌, refl, ap, ◌∙◌, Bool, true, false, Option, none, some, List, [], ◌∷◌, arith,
  leb, if◌then◌else◌, length,
}
use stream_fdl.Prelude.After.{After, >>=-After}
use stream_fdl.Prelude.All.{All, All-map}
use stream_fdl.Prelude.Double.{Double}
use stream_fdl.StdMap
use stream_fdl.StdMap.{str_less}
use stream_fdl.StdMap.Entries.{find-All, emplace-All, modify-All}
use stream_fdl.CircularBuffer.{CircularBuffer, make, push}
use stream_fdl.CircularBuffer.Growth.{push-After}
use stream_fdl.MemberPtr.{MemberPtr}
use stream_fdl.Members.Attributes.{Response}
use stream_fdl.DataStore.{Channel, DataStore}
use stream_fdl.DataStore.Live.{IsLive}
use stream_fdl.DataStore.Typed.{IsTyped}
use stream_fdl.Watchlist.{ptr_less}
use stream_fdl.FaultDetection.{
  AttributeWindow, MemberWindow, create_attr_window, create_attr_window_loop, update_attr_window,
}
use stream_fdl.FaultDetection.Round.{
  member_attributes, place_attributes, update_member, update_windows,
}
use stream_fdl.FaultDetection.Ready.{Goes-refl, Goes, Goes-trans, AllLive-Goes}
use stream_fdl.FaultDetection.Ready.Attributes.{AreNumerical, member_attributes-Goes}

module _ (d : Double) (name : String) where
  -- A window with one buffer, of the name, whose iterator stands at a value.
  abbrev pub IsUsable : AttributeWindow d → Type 0
  IsUsable window =
      (b : CircularBuffer d.Value) × (window ≡ (name, b) ∷ []) × b.current < length b.buffer

  create_attr_window-IsUsable :
      (n : ℕ) (v : d.Value)
      → leb 2 n ≡ true
      → After ⊥ IsUsable (create_attr_window d n ((name, v) ∷ []))
  unfolding create_attr_window create_attr_window_loop make
  create_attr_window-IsUsable n v two = rw two (
      >>=-After ⊥ _ (push (record { max_size = n; buffer = []; current = 0 }) v) _
        (push-After (record { max_size = n; buffer = []; current = 0 }) v (omega arith))
        (λ r inside. (r.0, ap (λ o. o.0) (StdMap.emplace-empty str_less name r.0), inside)))

  update_attr_window-IsUsable :
      (v : d.Value) (window : AttributeWindow d)
      → IsUsable window
      → After ⊥ IsUsable (update_attr_window d ((name, v) ∷ []) window)
  unfolding update_attr_window
  update_attr_window-IsUsable v window (b, is, inside) =
      rw (is, update_attr_window, StdMap.find-single name b)
        (>>=-After ⊥ _ (push b v) _ (push-After b v (omega arith)) (λ r inside'. (
          r.0,
          ap (StdMap.modify str_less name (λ _. r.0)) is ∙ StdMap.modify-single name (λ _. r.0) b,
          inside',
        )))

module _ (d : Double) (ch : Channel d.Value) where
  -- The entries of the map: a member, and a window of its attribute.
  abbrev pub AreWindows : DataStore d.Value → MemberWindow d → Type 0
  AreWindows ds windows = All (λ e. IsLive ds e.0 × IsUsable d ch.cpu_utilisation e.1) windows

  pub AreWindows-Goes :
      (ds ds' : DataStore d.Value) (windows : MemberWindow d)
      → Goes ch ds ds'
      → AreWindows ds windows
      → AreWindows ds' windows
  AreWindows-Goes ds ds' windows goes = All-map _ _ windows (λ e is. (goes.1 e.0 is.0, is.1))

module _ (d : Double) (ch : Channel d.Value) (received : String → Option (Response d.Value))
    (numbers : AreNumerical received) where
  place_attributes-AreWindows :
      (n : ℕ) (p : MemberPtr) (v : d.Value) (found : Option (AttributeWindow d))
      (windows : MemberWindow d) (ds : DataStore d.Value)
      → leb 2 n ≡ true
      → StdMap.find ptr_less p windows ≡ found
      → IsLive ds p
      → AreWindows d ch ds windows
      → After ⊥
          (λ r. AreWindows d ch ds r.0)
          (place_attributes d received n p ((ch.cpu_utilisation, v) ∷ []) found windows)
  unfolding place_attributes
  place_attributes-AreWindows n p v none windows ds two at live all =
      >>=-After ⊥ _ (create_attr_window d n ((ch.cpu_utilisation, v) ∷ [])) _
        (create_attr_window-IsUsable d ch.cpu_utilisation n v two)
        (λ window usable. emplace-All ptr_less _ p window windows (live, usable) all)
  place_attributes-AreWindows n p v (some window) windows ds two at live all =
      >>=-After ⊥ _ (update_attr_window d ((ch.cpu_utilisation, v) ∷ []) window) _
        (update_attr_window-IsUsable d ch.cpu_utilisation v window (
          find-All ptr_less (λ e. IsLive ds e.0 × IsUsable d ch.cpu_utilisation e.1)
            (IsUsable d ch.cpu_utilisation) p windows window (λ e is. is.1) all at))
        (λ window' usable.
          modify-All ptr_less _ p (λ _. window') windows (λ e is. (is.0, usable)) all)

  update_member-AreWindows :
      (n : ℕ) (p : MemberPtr) (windows : MemberWindow d) (ds : DataStore d.Value)
      → leb 2 n ≡ true
      → IsTyped ch ds
      → IsLive ds p
      → AreWindows d ch ds windows
      → After ⊥
          (λ r. Goes ch ds r.1 × AreWindows d ch r.1 r.0)
          (update_member d received n p windows ds)
  unfolding update_member
  update_member-AreWindows n p windows ds two typed live all =
      >>=-After ⊥ _ (member_attributes d received p ds) _
        (member_attributes-Goes d ch received numbers p ds typed live)
        (λ r (goes, (v, is)). rw is (
          >>=-After ⊥ _
            (place_attributes d received n p ((ch.cpu_utilisation, v) ∷ [])
              (StdMap.find ptr_less p windows) windows)
            _
            (place_attributes-AreWindows n p v (StdMap.find ptr_less p windows) windows r.0 two refl
              (goes.1 p live) (AreWindows-Goes d ch ds r.0 windows goes all))
            (λ r' all'. (goes, all'))))

  left_over :
      (moved : Bool) (p : MemberPtr) (left : List MemberPtr) (ds : DataStore d.Value)
      → IsLive ds p
      → All (IsLive ds) left
      → All (IsLive ds) (if moved then left else p ∷ left)
  left_over true p left ds live lives = lives
  left_over false p left ds live lives = (live, lives)

  -- The loop over the members returns; the windows are usable, and no handle loses its member.
  pub update_windows-AreWindows :
      (n : ℕ) (ps : List MemberPtr) (windows : MemberWindow d) (ds : DataStore d.Value)
      → leb 2 n ≡ true
      → IsTyped ch ds
      → All (IsLive ds) ps
      → AreWindows d ch ds windows
      → After ⊥
          (λ r. Goes ch ds r.1 × AreWindows d ch r.1 r.0 × All (IsLive r.1) r.2)
          (update_windows d received n ps windows ds)
  unfolding update_windows
  update_windows-AreWindows n [] windows ds two typed live all = (Goes-refl ch ds typed, all, tt)
  update_windows-AreWindows n (p ∷ ps) windows ds two typed (live, lives) all =
      >>=-After ⊥ _ (update_member d received n p windows ds) _
        (update_member-AreWindows n p windows ds two typed live all)
        (λ r (goes, all₁).
          >>=-After ⊥ _ (update_windows d received n ps r.0 r.1) _
            (update_windows-AreWindows n ps r.0 r.1 two goes.0
              (AllLive-Goes ch (λ q. q) ds r.1 ps goes lives) all₁)
            (λ r' (goes', all₂, left). (
              Goes-trans ch ds r.1 r'.1 goes goes',
              all₂,
              left_over r.2 p r'.2 r'.1 (goes'.1 p (goes.1 p live)) left,
            )))
