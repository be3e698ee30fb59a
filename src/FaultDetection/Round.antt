-- ===== src/FaultDetection/Round.antt =====
-- `FaultDetection::run` of fault-detection.cpp: one round of its loop, without the sleep at its
-- end. `received` is what the members' channels deliver in the round, `now` reads the clock at the
-- check of a member.
use stream_fdl.Prelude.{
  ℕ, String, Bool, true, false, Option, none, some, List, [], ◌∷◌, ◌++◌, if◌then◌else◌, dangling,
  Outcome, ok, fault, ◌>>=◌,
}
use stream_fdl.Prelude.Double.{Double}
use stream_fdl.AtomicCounter.{increase, decrease}
use stream_fdl.StdMap
use stream_fdl.CircularBuffer.{full}
use stream_fdl.MemberPtr.{MemberPtr}
use stream_fdl.Members.{Timestamp, base_of}
use stream_fdl.Members.Attributes.{Response, AttributeMapping, get_attributes}
use stream_fdl.DoubleLinkedList.{load}
use stream_fdl.DataStore.{Channel, DataStore, member_at, modify_entry, adjust_counter}
use stream_fdl.Watchlist.{Watchlist, ptr_less, notify_used, get_members}
use stream_fdl.FaultDetection.{
  Alert, severity_normal, first_value, AttributeWindow, MemberWindow, FaultDetection,
  create_attr_window, update_attr_window, detect_faults,
}

module _ (d : Double) (received : String → Option (Response d.Value)) where
  open d use {Value}

  -- `member->getAttributes()`: the member's last values are refreshed in its element.
  unfoldable pub member_attributes :
      MemberPtr → DataStore Value → Outcome (DataStore Value × AttributeMapping Value)
  member_attributes p ds = elim (ds.nodes.heap p) [
    | some e ↦ do
      (base, mapping) ← get_attributes received e.entry.instance_value.base
      l ←
          modify_entry
            (λ n. ok (record n { instance_value = record n.instance_value { base = base } }))
            ds.nodes p
      ok (record ds { nodes = l }, mapping)
    | none ↦ do
      e ← load ds.topics.heap p
      (base, mapping) ← get_attributes received e.entry.instance_value.base
      l ←
          modify_entry
            (λ t. ok (record t { instance_value = record t.instance_value { base = base } }))
            ds.topics p
      ok (record ds { topics = l }, mapping)
  ]

  -- The branches on what `mMovingWindow.find` returns; the last component of the result says
  -- whether the handle was moved into the map.
  unfoldable pub place_attributes :
      ℕ
      → MemberPtr
      → AttributeMapping Value
      → Option (AttributeWindow d)
      → MemberWindow d
      → Outcome (MemberWindow d × Bool)
  place_attributes n p attributes none windows = do
    window ← create_attr_window d n attributes
    ok ((StdMap.emplace ptr_less p window windows).0, true)
  place_attributes n p attributes (some window) windows = do
    window' ← update_attr_window d attributes window
    ok (StdMap.modify ptr_less p (λ _. window') windows, false)

  -- The body of the first loop.
  unfoldable pub update_member :
      ℕ
      → MemberPtr
      → MemberWindow d
      → DataStore Value
      → Outcome (MemberWindow d × DataStore Value × Bool)
  update_member n p windows ds = do
    (ds', attributes) ← member_attributes p ds
    (windows', moved) ← place_attributes n p attributes (StdMap.find ptr_less p windows) windows
    ok (windows', ds', moved)

  -- The first loop, with the handles that stay in `currentWatchlistMembers`.
  unfoldable pub update_windows :
      ℕ
      → List MemberPtr
      → MemberWindow d
      → DataStore Value
      → Outcome (MemberWindow d × DataStore Value × List MemberPtr)
  update_windows n [] windows ds = ok (windows, ds, [])
  update_windows n (p ∷ ps) windows ds = do
    (windows', ds', moved) ← update_member n p windows ds
    (windows'', ds'', left) ← update_windows n ps windows' ds'
    ok (windows'', ds'', if moved then left else p ∷ left)

  module _ (now : MemberPtr → Timestamp) where
    -- What becomes of the alert: it is moved into the list, or destroyed with its handle.
    unfoldable pub emit :
        Bool → Alert → List Alert → DataStore Value → Outcome (List Alert × DataStore Value)
    emit true alert alerts ds = ok (alerts ++ alert ∷ [], ds)
    emit false alert alerts ds = do ds' ← adjust_counter decrease alert.member ds; ok (alerts, ds')

    -- One member's check: `detectFaults` takes a copy of the handle and assigns it to the alert.
    unfoldable pub check_window :
        MemberPtr
        → AttributeWindow d
        → List Alert
        → DataStore Value
        → Outcome (List Alert × DataStore Value)
    check_window p window alerts ds = do
      copied ← adjust_counter increase p ds
      assigned ← adjust_counter increase p copied
      member ← (elim (member_at ds p) [ none ↦ fault dangling | some m ↦ ok m ])
      (found, names) ← detect_faults d member window
      returned ← adjust_counter decrease p assigned
      let alert : Alert = record {
        member = p;
        affected_attributes = names;
        timestamp = now p;
        severity = severity_normal;
      }
      emit found alert alerts returned

    -- What follows the check of a full window: whether the entry is erased.
    unfoldable pub after_check :
        MemberPtr
        → List Alert × DataStore Value
        → Watchlist
        → Outcome (Bool × List Alert × Watchlist × DataStore Value)
    after_check p (alerts, ds) w = do
      member ← (elim (member_at ds p) [ none ↦ fault dangling | some m ↦ ok m ])
      (w', ds', used) ← notify_used (base_of member).primary_key w ds
      ds'' ← if used then adjust_counter decrease p ds' else ok ds'
      ok (used, alerts, w', ds'')

    -- The body of the second loop; the first argument says whether the first buffer
    -- of the window is full.
    unfoldable pub check_entry :
        Bool
        → MemberPtr
        → AttributeWindow d
        → List Alert
        → Watchlist
        → DataStore Value
        → Outcome (Bool × List Alert × Watchlist × DataStore Value)
    check_entry false p window alerts w ds = ok (false, alerts, w, ds)
    check_entry true p window alerts w ds = do
      checked ← check_window p window alerts ds
      after_check p checked w

    -- The second loop: the entries that are left, the alerts, the watchlist and the store.
    unfoldable pub check_windows :
        MemberWindow d
        → List Alert
        → Watchlist
        → DataStore Value
        → Outcome (MemberWindow d × List Alert × Watchlist × DataStore Value)
    check_windows [] alerts w ds = ok ([], alerts, w, ds)
    check_windows ((p, window) ∷ windows) alerts w ds = do
      buffer ← first_value window
      (used, alerts₁, w₁, ds₁) ← check_entry (full buffer) p window alerts w ds
      (windows', alerts', w', ds') ← check_windows windows alerts₁ w₁ ds₁
      ok (if used then windows' else (p, window) ∷ windows', alerts', w', ds')

    unfoldable pub destroy_handles : List MemberPtr → DataStore Value → Outcome (DataStore Value)
    destroy_handles [] ds = ok ds
    destroy_handles (p ∷ ps) ds = do ds' ← adjust_counter decrease p ds; destroy_handles ps ds'

    unfoldable pub run_round :
        Channel Value
        → ℕ
        → FaultDetection d
        → Watchlist
        → DataStore Value
        → Outcome (FaultDetection d × Watchlist × DataStore Value)
    run_round ch rounds fd w ds = do
      (w₁, ds₁, ps) ← get_members ch rounds w ds
      (windows, ds₂, left) ← update_windows fd.moving_window_size ps fd.moving_window ds₁
      (windows', alerts, w₂, ds₃) ← check_windows windows fd.alerts w₁ ds₂
      ds₄ ← destroy_handles left ds₃
      ok (record fd { moving_window = windows'; alerts = alerts }, w₂, ds₄)
