-- ===== src/DataStore/Messages.antt =====
-- The message handling of `DataStore::run` in data-store.cpp: one message at most of each kind in a
-- round, in the order of the source. A message for a member that the store does not have is logged
-- and dropped.
use stream_fdl.Prelude.{
  ℕ, String, Bool, Option, none, some, ◌==◌, if◌then◌else◌, Outcome, ok, ◌>>=◌,
}
pub mod Entries
pub mod Round
use stream_fdl.DoubleLinkedList.{Ptr, null, Entry, DoubleLinkedList, find_from}
use stream_fdl.Members.{
  PrimaryKey, Timestamp, Node, Topic, update_publishers_to, update_subscribers_to,
  update_is_server_for, update_is_client_of, update_is_action_server_for,
  update_is_action_client_of, update_state, update_publishers, update_subscribers,
}
use stream_fdl.GraphView.{GraphView, add_sub_update, add_send_update, add_pub_update}
use stream_fdl.DataStore.{DataStore, modify_entry, node_key_is, topic_key_is}

abbrev pub change_instance : {T : Type 0} → (T → T) → Entry T → Outcome (Entry T)
change_instance f d = ok (record d { instance_value = f d.instance_value })

-- Finds an element and changes its instance; the address is null where there is none.
unfoldable pub update_where :
    {T : Type 0}
    → (T → Bool)
    → (T → T)
    → ℕ
    → DoubleLinkedList T
    → Outcome (DoubleLinkedList T × Ptr)
update_where test f rounds l = do
  it ← find_from test rounds l.heap l.first
  if it == null then ok (l, null) else (do l' ← modify_entry (change_instance f) l it; ok (l', it))

-- The messages of one round.
pub record Messages : Type 0 where
  pub publishers_to : Option (PrimaryKey × PrimaryKey)
  pub subscribers_to : Option (PrimaryKey × PrimaryKey)
  -- The node, the service, the other node.
  pub is_server_for : Option (PrimaryKey × String × PrimaryKey)
  pub is_client_of : Option (PrimaryKey × String × PrimaryKey)
  pub is_action_server_for : Option (PrimaryKey × String × PrimaryKey)
  pub is_action_client_of : Option (PrimaryKey × String × PrimaryKey)
  -- The node, whether it is active now, since when.
  pub state : Option (PrimaryKey × Bool × Timestamp)
  -- The topic, the edge, the node.
  pub publishers : Option (PrimaryKey × PrimaryKey × PrimaryKey)
  pub subscribers : Option (PrimaryKey × PrimaryKey × PrimaryKey)

module _ {V : Type 0} (rounds : ℕ) where
  -- The lookup and update that the blocks for nodes share; `log` follows where a node was found.
  unfoldable pub update_node :
      PrimaryKey → (Node V → Node V) → (GraphView → GraphView) → DataStore V → Outcome (DataStore V)
  update_node key f log ds = do
    (l, it) ← update_where (node_key_is key) f rounds ds.nodes
    ok (record ds { nodes = l; updates = if it == null then ds.updates else log ds.updates })

  unfoldable pub update_topic :
      PrimaryKey
      → (Topic V → Topic V)
      → (GraphView → GraphView)
      → DataStore V
      → Outcome (DataStore V)
  update_topic key f log ds = do
    (l, it) ← update_where (topic_key_is key) f rounds ds.topics
    ok (record ds { topics = l; updates = if it == null then ds.updates else log ds.updates })

  unfoldable pub on_publishers_to :
      Option (PrimaryKey × PrimaryKey) → DataStore V → Outcome (DataStore V)
  on_publishers_to none ds = ok ds
  on_publishers_to (some (key, topic)) ds = update_node key (update_publishers_to topic) (λ s. s) ds

  unfoldable pub on_subscribers_to :
      Option (PrimaryKey × PrimaryKey) → DataStore V → Outcome (DataStore V)
  on_subscribers_to none ds = ok ds
  on_subscribers_to (some (key, topic)) ds =
      update_node key (update_subscribers_to topic) (add_sub_update key topic) ds

  unfoldable pub on_is_server_for :
      Option (PrimaryKey × String × PrimaryKey) → DataStore V → Outcome (DataStore V)
  on_is_server_for none ds = ok ds
  on_is_server_for (some (key, service, client)) ds =
      update_node key (update_is_server_for service client) (λ s. s) ds

  unfoldable pub on_is_client_of :
      Option (PrimaryKey × String × PrimaryKey) → DataStore V → Outcome (DataStore V)
  on_is_client_of none ds = ok ds
  on_is_client_of (some (key, service, server)) ds =
      update_node key (update_is_client_of service server) (add_send_update key server) ds

  unfoldable pub on_is_action_server_for :
      Option (PrimaryKey × String × PrimaryKey) → DataStore V → Outcome (DataStore V)
  on_is_action_server_for none ds = ok ds
  on_is_action_server_for (some (key, service, client)) ds =
      update_node key (update_is_action_server_for service client) (λ s. s) ds

  unfoldable pub on_is_action_client_of :
      Option (PrimaryKey × String × PrimaryKey) → DataStore V → Outcome (DataStore V)
  on_is_action_client_of none ds = ok ds
  on_is_action_client_of (some (key, service, server)) ds =
      update_node key (update_is_action_client_of service server) (add_send_update key server) ds

  unfoldable pub on_state :
      Option (PrimaryKey × Bool × Timestamp) → DataStore V → Outcome (DataStore V)
  on_state none ds = ok ds
  on_state (some (key, active, time)) ds = update_node key (update_state active time) (λ s. s) ds

  unfoldable pub on_publishers :
      Option (PrimaryKey × PrimaryKey × PrimaryKey) → DataStore V → Outcome (DataStore V)
  on_publishers none ds = ok ds
  on_publishers (some (key, edge, publisher)) ds =
      update_topic key (update_publishers edge publisher) (add_pub_update key publisher) ds

  unfoldable pub on_subscribers :
      Option (PrimaryKey × PrimaryKey × PrimaryKey) → DataStore V → Outcome (DataStore V)
  on_subscribers none ds = ok ds
  on_subscribers (some (key, edge, subscriber)) ds =
      update_topic key (update_subscribers edge subscriber) (λ s. s) ds

  -- The second half of a round of `run`.
  unfoldable pub handle_messages : Messages → DataStore V → Outcome (DataStore V)
  handle_messages m ds = do
    ds₁ ← on_publishers_to m.publishers_to ds
    ds₂ ← on_subscribers_to m.subscribers_to ds₁
    ds₃ ← on_is_server_for m.is_server_for ds₂
    ds₄ ← on_is_client_of m.is_client_of ds₃
    ds₅ ← on_is_action_server_for m.is_action_server_for ds₄
    ds₆ ← on_is_action_client_of m.is_action_client_of ds₅
    ds₇ ← on_state m.state ds₆
    ds₈ ← on_publishers m.publishers ds₇
    on_subscribers m.subscribers ds₈
