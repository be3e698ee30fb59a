-- ===== src/DataStore.antt =====
-- src/dynamic-subgraph/data-store.{hpp,cpp}: the store of nodes and topics. The inter-process
-- channel is a parameter: `Channel` says what it answers to the request of a given number, which
-- address `new` returns for the answer, and what the first blocking read of the attribute finds. A
-- thrown `bad_optional_access` and a failed assertion are faults. `rounds` is the fuel of the list
-- searches. A handle is the address of an element, and its counter is that element's.
use stream_fdl.Prelude.{
  ◌>>◌, ℕ, suc, ◌/◌, String, Bool, ◌||◌, Option, none, some, str_eq, ◌==◌, if◌then◌else◌, assertion,
  bad_optional_access, Outcome, ok, fault, ◌>>=◌,
}
pub mod Lookup
pub mod Held
pub mod Live
pub mod Kept
pub mod Typed
pub mod Casts
pub mod Found
pub mod Requested
pub mod Dangling
pub mod Messages
pub mod Collect
pub mod Retry
pub mod Start
use stream_fdl.AtomicCounter
use stream_fdl.AtomicCounter.{AtomicCounter}
use stream_fdl.DoubleLinkedList.{
  Ptr, null, Entry, Element, DoubleLinkedList, write, load, emplace_back, find_from,
}
use stream_fdl.Members.{
  PrimaryKey, MemberProxy, MemberBase, Node, Topic, Member, node, topic, NodeResponse,
  TopicResponse, make_node, make_topic,
}
use stream_fdl.Members.Attributes.{Response, add_attribute_source}
use stream_fdl.MemberPtr.{MemberPtr}
use stream_fdl.GraphView.{GraphView}

pub record AttributeAnswer (V : Type 0) : Type 0 where
  pub sent_id : ℕ
  pub response_id : ℕ
  pub memory_address : String
  pub first : Response V

pub record Answer (V R : Type 0) : Type 0 where
  pub address : Ptr
  pub request_id : ℕ
  pub response : Option R
  pub attribute : Option (AttributeAnswer V)

pub record Channel (V : Type 0) : Type 0 where
  -- `std::to_string(AttributeName::CPU_UTILIZATION)`.
  pub cpu_utilisation : String
  pub search_node : ℕ → String → Option PrimaryKey
  pub search_topic : ℕ → String → Option PrimaryKey
  pub request_node : ℕ → PrimaryKey → Answer V NodeResponse
  pub request_topic : ℕ → PrimaryKey → Answer V TopicResponse

pub record DataStore (V : Type 0) : Type 0 where
  pub nodes : DoubleLinkedList (Node V)
  pub topics : DoubleLinkedList (Topic V)
  pub updates : GraphView
  pub parameter_events_key : PrimaryKey
  pub rosout_key : PrimaryKey
  -- How many requests have been sent.
  pub requests : ℕ

-- `std::optional::value`.
abbrev pub value_of {ℓ} : {A : Type ℓ} → Option A → Outcome A
value_of none = fault bad_optional_access
value_of (some a) = ok a

abbrev pub require : Bool → Outcome (Unit {0})
require b = if b then ok tt else fault assertion

-- A change of the entry of an element.
unfoldable pub modify_entry :
    {T : Type 0}
    → (Entry T → Outcome (Entry T))
    → DoubleLinkedList T
    → Ptr
    → Outcome (DoubleLinkedList T)
modify_entry f l p = do
  e ← load l.heap p
  entry ← f e.entry
  ok (record l { heap = write l.heap p (some (record e { entry = entry })) })

-- `checkTopicPrimaryIgnored`.
unfoldable pub check_topic_primary_ignored : {V : Type 0} → DataStore V → PrimaryKey → Bool
check_topic_primary_ignored ds key = str_eq key ds.parameter_events_key || str_eq key ds.rosout_key

-- `checkTopicNameIgnored`.
unfoldable pub check_topic_name_ignored : String → Bool
check_topic_name_ignored name = str_eq name "/rosout" || str_eq name "/parameter_events"

module _ {V : Type 0} where
  abbrev pub node_key_is : PrimaryKey → Node V → Bool
  node_key_is key n = str_eq n.base.primary_key key

  abbrev pub topic_key_is : PrimaryKey → Topic V → Bool
  topic_key_is key t = str_eq t.base.primary_key key

  -- What a handle points at.
  abbrev pub member_at : DataStore V → MemberPtr → Option (Member V)
  member_at ds p = if p == null then none else (elim (ds.nodes.heap p) [
    | some e ↦ some (node e.entry.instance_value)
    | none ↦ elim (ds.topics.heap p) [ some e ↦ some (topic e.entry.instance_value) | none ↦ none ]
  ])

  -- A change of the use counter behind a valid handle; an empty handle has none.
  unfoldable pub adjust_counter :
      (AtomicCounter → AtomicCounter) → MemberPtr → DataStore V → Outcome (DataStore V)
  adjust_counter f p ds = if p == null then ok ds else (elim (ds.nodes.heap p) [
    | some e ↦ do
      l ← modify_entry (λ d. ok (record d { use_counter = f d.use_counter })) ds.nodes p
      ok (record ds { nodes = l })
    | none ↦ do
      l ← modify_entry (λ d. ok (record d { use_counter = f d.use_counter })) ds.topics p
      ok (record ds { topics = l })
  ])

module _ {V : Type 0} (ch : Channel V) (rounds : ℕ) where
  unfoldable pub add_source :
      {T : Type 0} → (MemberBase V → T) → AttributeAnswer V → MemberBase V → Outcome T
  add_source rebuild a base = do
    require (a.sent_id == a.response_id)
    base' ← add_attribute_source a.first ch.cpu_utilisation a.memory_address a.response_id base
    ok (rebuild base')

  -- `requestNode`, with the element's address for the handle that it returns.
  unfoldable pub request_node : PrimaryKey → DataStore V → Outcome (DataStore V × MemberPtr)
  unfolding add_source
  request_node primary ds = do
    let answer = ch.request_node ds.requests primary
    response ← value_of answer.response
    (l, it) ← emplace_back ds.nodes answer.address (make_node response) answer.request_id
    attribute ← value_of answer.attribute
    l' ←
        modify_entry
          (λ d. do
            n ←
                add_source (λ base. record d.instance_value { base = base }) attribute
                  d.instance_value.base
            ok (record d { instance_value = n }))
          l it
    ok (record ds { nodes = l'; requests = suc (suc ds.requests) }, it)

  -- `requestTopic`.
  unfoldable pub request_topic : PrimaryKey → DataStore V → Outcome (DataStore V × MemberPtr)
  unfolding add_source
  request_topic primary ds = do
    let answer = ch.request_topic ds.requests primary
    response ← value_of answer.response
    (l, it) ← emplace_back ds.topics answer.address (make_topic response) answer.request_id
    attribute ← value_of answer.attribute
    l' ←
        modify_entry
          (λ d. do
            t ←
                add_source (λ base. record d.instance_value { base = base }) attribute
                  d.instance_value.base
            ok (record d { instance_value = t }))
          l it
    ok (record ds { topics = l'; requests = suc (suc ds.requests) }, it)

  -- `getNode`: a member that the store has is returned as it is.
  unfoldable pub get_node : PrimaryKey → DataStore V → Outcome (DataStore V × MemberPtr)
  get_node primary ds = do
    it ← find_from (node_key_is primary) rounds ds.nodes.heap ds.nodes.first
    if it == null then request_node primary ds else ok (ds, it)

  unfoldable pub get_topic : PrimaryKey → DataStore V → Outcome (DataStore V × MemberPtr)
  get_topic primary ds = do
    it ← find_from (topic_key_is primary) rounds ds.topics.heap ds.topics.first
    if it == null then request_topic primary ds else ok (ds, it)

  -- `getNodeByName`: an empty handle where the search finds no node.
  unfoldable pub get_node_by_name : String → DataStore V → Outcome (DataStore V × MemberPtr)
  get_node_by_name name ds = do
    it ← find_from (λ n. str_eq n.name name) rounds ds.nodes.heap ds.nodes.first
    if it == null
        then (do
          primary ← value_of (ch.search_node ds.requests name)
          let asked = record ds { requests = suc ds.requests }
          if str_eq primary "" then ok (asked, null) else request_node primary asked)
        else ok (ds, it)

  unfoldable pub get_topic_by_name : String → DataStore V → Outcome (DataStore V × MemberPtr)
  get_topic_by_name name ds = do
    it ← find_from (λ t. str_eq t.name name) rounds ds.topics.heap ds.topics.first
    if it == null
        then (do
          primary ← value_of (ch.search_topic ds.requests name)
          let asked = record ds { requests = suc ds.requests }
          if str_eq primary "" then ok (asked, null) else request_topic primary asked)
        else ok (ds, it)

  -- `get`.
  unfoldable pub get : MemberProxy → DataStore V → Outcome (DataStore V × MemberPtr)
  get p ds = if p.is_topic then get_topic p.primary_key ds else get_node p.primary_key ds
