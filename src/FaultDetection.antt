-- ===== src/FaultDetection.antt =====
-- src/fault-detection/fault-detection.{hpp,cpp}: the moving windows of attribute values and the
-- alerts. The clock is an argument, as is what the shared memory channels deliver.
pub mod Round
pub mod Parallel
pub mod Alerts
pub mod Delivery
pub mod Windows
pub mod Pooled
pub mod Watching
pub mod Kept
pub mod Typed
pub mod Ready
pub mod Detection
use stream_fdl.Prelude.{
  ℕ, String, Bool, true, false, not, ◌&&◌, ◌||◌, none, some, List, [], ◌∷◌, if◌then◌else◌, dangling,
  out_of_range, Outcome, ok, fault, ◌>>=◌,
}
use stream_fdl.Prelude.Double.{Double}
use stream_fdl.AtomicCounter.{increase, decrease}
use stream_fdl.StdMap
use stream_fdl.StdMap.{str_less}
use stream_fdl.CircularBuffer.{CircularBuffer, make, push, full, empty, current_value}
use stream_fdl.CircularBuffer.Statistics.{get_mean, get_std_dev}
use stream_fdl.MemberPtr.{MemberPtr, null}
use stream_fdl.Members.{Timestamp, Member, node, topic, MemberBase, base_of}
use stream_fdl.Members.Attributes.{Response, AttributeMapping, get_attributes}
use stream_fdl.DataStore.{Channel, DataStore, member_at, modify_entry, adjust_counter}
use stream_fdl.Watchlist.{Watchlist, ptr_less, notify_used, get_members}

pub data Severity : Type 0 where
  severity_normal : Severity

pub record Alert : Type 0 where
  pub member : MemberPtr
  pub affected_attributes : List String
  pub timestamp : Timestamp
  pub severity : Severity

-- `it->second` of the first entry; `begin()` of an empty map must not be read.
abbrev pub first_value {ℓ κ} : {K : Type ℓ} {V : Type κ} → List (K × V) → Outcome V
first_value [] = fault dangling
first_value ((k, v) ∷ m) = ok v

module _ (d : Double) where
  open d use {Value, add, sub, mul, of_ℕ, lt}

  abbrev pub AttributeWindow : Type 0
  AttributeWindow = List (String × CircularBuffer Value)

  abbrev pub MemberWindow : Type 0
  MemberWindow = List (MemberPtr × AttributeWindow)

  pub record FaultDetection : Type 0 where
    pub alerts : List Alert
    pub moving_window : MemberWindow
    pub moving_window_size : ℕ

  -- The loop of `createAttrWindow`, with the window so far.
  unfoldable pub create_attr_window_loop :
      ℕ → AttributeMapping Value → AttributeWindow → Outcome AttributeWindow
  create_attr_window_loop n [] window = ok window
  create_attr_window_loop n ((descriptor, attribute) ∷ mapping) window = do
    raw ← make n
    (filled, it) ← push raw attribute
    create_attr_window_loop n mapping (StdMap.emplace str_less descriptor filled window).0

  unfoldable pub create_attr_window : ℕ → AttributeMapping Value → Outcome AttributeWindow
  unfolding create_attr_window_loop
  create_attr_window n mapping = create_attr_window_loop n mapping []

  unfoldable pub update_attr_window :
      AttributeMapping Value → AttributeWindow → Outcome AttributeWindow
  update_attr_window [] window = ok window
  update_attr_window ((descriptor, attribute) ∷ mapping) window =
      elim (StdMap.find str_less descriptor window) [
        | none ↦ fault out_of_range
        | some buffer ↦ do
          (buffer', it) ← push buffer attribute
          update_attr_window mapping (StdMap.modify str_less descriptor (λ _. buffer') window)
      ]

  -- The test of one buffer that is not empty.
  unfoldable pub is_affected : CircularBuffer Value → Outcome Bool
  is_affected buffer = do
    mean ← get_mean d buffer
    std_dev ← get_std_dev d buffer mean
    value ← current_value buffer
    ok (lt value (sub mean (mul (of_ℕ 3) std_dev)) || lt (add mean (mul (of_ℕ 3) std_dev)) value)

  -- The loop of `detectFaults`.
  unfoldable pub affected_attributes : AttributeWindow → Outcome (List String)
  affected_attributes [] = ok []
  affected_attributes ((descriptor, buffer) ∷ window) =
      let rest = affected_attributes window in
      if empty buffer then rest else (do
        affected ← is_affected buffer
        names ← rest
        ok (if affected then descriptor ∷ names else names))

  -- `!member->mIsTopic && !asNode(member)->mAlive`.
  abbrev pub is_dead_node : Member Value → Bool
  is_dead_node (node n) = not n.base.is_topic && not n.alive
  is_dead_node (topic t) = false

  -- `detectFaults`: its answer and the attributes that it writes into the alert.
  unfoldable pub detect_faults : Member Value → AttributeWindow → Outcome (Bool × List String)
  detect_faults member window = if is_dead_node member then ok (true, []) else (do
    names ← affected_attributes window
    ok (elim names [ [] ↦ false | name ∷ more ↦ true ], names))

  -- `getEmittedAlerts`: the alerts are copied, with their handles, and the originals cleared.
  unfoldable pub adjust_alerts :
      (DataStore Value → MemberPtr → Outcome (DataStore Value))
      → List Alert
      → DataStore Value
      → Outcome (DataStore Value)
  adjust_alerts f [] ds = ok ds
  adjust_alerts f (a ∷ as') ds = do ds' ← f ds a.member; adjust_alerts f as' ds'

  unfoldable pub get_emitted_alerts :
      FaultDetection → DataStore Value → Outcome (FaultDetection × DataStore Value × List Alert)
  get_emitted_alerts fd ds = do
    copied ← adjust_alerts (λ ds' p. adjust_counter increase p ds') fd.alerts ds
    cleared ← adjust_alerts (λ ds' p. adjust_counter decrease p ds') fd.alerts copied
    ok (record fd { alerts = [] }, cleared, fd.alerts)

  -- The handles of the entries that go, destroyed.
  unfoldable pub destroy_window : MemberWindow → DataStore Value → Outcome (DataStore Value)
  destroy_window [] ds = ok ds
  destroy_window ((p, window) ∷ m) ds = do ds' ← adjust_counter decrease p ds; destroy_window m ds'

  unfoldable pub reset :
      FaultDetection → DataStore Value → Outcome (FaultDetection × DataStore Value)
  reset fd ds = do
    ds' ← destroy_window fd.moving_window ds
    ok (record fd { moving_window = [] }, ds')
