-- ===== src/Members.antt =====
-- src/dynamic-subgraph/member-base.hpp and members.{hpp,cpp}: the members of the graph and how
-- the updates from the inter-process channel change them. `V` is the type of attribute values. The
-- messages are as the channel delivers them, their character arrays read as strings.
use stream_fdl.Prelude.{
  ℕ, ◌+◌, String, Bool, true, false, none, some, List, [], ◌∷◌, ◌++◌, str_eq, if◌then◌else◌,
}
pub mod Attributes
pub mod Updates
pub mod Printing
use mathlib.Core.Bool.{xor}
use stream_fdl.StdMap
use stream_fdl.StdMap.{str_less}

abbrev pub PrimaryKey : Type 0
PrimaryKey = String

abbrev pub Timestamp : Type 0
Timestamp = ℕ

pub record MemberProxy : Type 0 where
  pub primary_key : PrimaryKey
  pub is_topic : Bool

abbrev pub proxy : PrimaryKey → Bool → MemberProxy
proxy k t = record { primary_key = k; is_topic = t }

-- `MemberProxy::operator==` compares the keys alone.
unfoldable pub same_proxy : MemberProxy → MemberProxy → Bool
same_proxy a b = str_eq a.primary_key b.primary_key

pub record Attribute (V : Type 0) : Type 0 where
  pub name : String
  pub shared_memory : String
  pub request_id : ℕ
  pub last_value : V

-- `Member`, the base of `Node` and `Topic`.
pub record MemberBase (V : Type 0) : Type 0 where
  pub is_topic : Bool
  pub primary_key : PrimaryKey
  pub attributes : List (Attribute V)

abbrev pub Proxies : Type 0
Proxies = List MemberProxy

abbrev pub ClientMapping : Type 0
ClientMapping = List (String × Proxies)

abbrev pub ServiceMapping : Type 0
ServiceMapping = List (String × MemberProxy)

pub record Node (V : Type 0) : Type 0 where
  pub base : MemberBase V
  pub name : String
  pub pkg_name : String
  pub alive : Bool
  pub alive_change_time : Timestamp
  pub boot_count : ℕ
  pub process_id : ℕ
  pub clients : ClientMapping
  pub action_clients : ClientMapping
  pub servers : ServiceMapping
  pub action_servers : ServiceMapping
  pub publishes_to : Proxies
  pub subscribes_to : Proxies

pub record CommunicationEdge : Type 0 where
  pub primary_key : PrimaryKey
  pub associated_node : MemberProxy

abbrev pub communication_edge : PrimaryKey → PrimaryKey → CommunicationEdge
communication_edge e n = record { primary_key = e; associated_node = proxy n false }

pub record Topic (V : Type 0) : Type 0 where
  pub base : MemberBase V
  pub name : String
  pub type_name : String
  pub publishers : List CommunicationEdge
  pub subscribers : List CommunicationEdge

-- What a `MemberPtr` points at.
pub data Member (V : Type 0) : Type 0 where
  node : Node V → Member V
  topic : Topic V → Member V

abbrev pub base_of : {V : Type 0} → Member V → MemberBase V
base_of (node n) = n.base
base_of (topic t) = t.base

pub record NodeResponse : Type 0 where
  pub primary_key : PrimaryKey
  pub name : String
  pub pkg_name : String
  -- Whether `state == ACTIVE`.
  pub active : Bool
  pub state_change_time : Timestamp
  pub boot_count : ℕ
  pub pid : ℕ

pub record TopicResponse : Type 0 where
  pub primary_key : PrimaryKey
  pub name : String
  pub type_name : String

-- Finds the clients of a service, or enters an empty list of them, and adds one at the end.
unfoldable pub add_client : String → PrimaryKey → ClientMapping → ClientMapping
add_client service client m =
    StdMap.modify str_less service (λ cs. cs ++ proxy client false ∷ [])
      (elim (StdMap.find str_less service m) [
        | some cs ↦ m
        | none ↦ (StdMap.emplace str_less service [] m).0
      ])

module _ {V : Type 0} where
  -- `Node::Node(const NodeResponse &)`.
  unfoldable pub make_node : NodeResponse → Node V
  make_node r = record {
    base = record { is_topic = false; primary_key = r.primary_key; attributes = [] };
    name = r.name;
    pkg_name = r.pkg_name;
    alive = r.active;
    alive_change_time = r.state_change_time;
    boot_count = r.boot_count;
    process_id = r.pid;
    clients = [];
    action_clients = [];
    servers = [];
    action_servers = [];
    publishes_to = [];
    subscribes_to = [];
  }

  -- `Topic::Topic(const TopicResponse &)`.
  unfoldable pub make_topic : TopicResponse → Topic V
  make_topic r = record {
    base = record { is_topic = true; primary_key = r.primary_key; attributes = [] };
    name = r.name;
    type_name = r.type_name;
    publishers = [];
    subscribers = [];
  }

  -- `Node::update(NodePublishersToUpdate)`.
  unfoldable pub update_publishers_to : PrimaryKey → Node V → Node V
  update_publishers_to publishes_to n = record n {
    publishes_to = n.publishes_to ++ proxy publishes_to true ∷ [];
  }

  -- `Node::update(NodeSubscribersToUpdate)`.
  unfoldable pub update_subscribers_to : PrimaryKey → Node V → Node V
  update_subscribers_to subscribes_to n = record n {
    subscribes_to = n.subscribes_to ++ proxy subscribes_to true ∷ [];
  }

  -- `Node::update(NodeIsServerForUpdate)`.
  unfoldable pub update_is_server_for : String → PrimaryKey → Node V → Node V
  update_is_server_for srv_name client n = record n {
    clients = add_client srv_name client n.clients;
  }

  -- `Node::update(NodeIsActionServerForUpdate)`: it reads and writes `mClients`.
  unfoldable pub update_is_action_server_for : String → PrimaryKey → Node V → Node V
  update_is_action_server_for srv_name action_client n = record n {
    clients = add_client srv_name action_client n.clients;
  }

  -- `Node::update(NodeIsClientOfUpdate)`.
  unfoldable pub update_is_client_of : String → PrimaryKey → Node V → Node V
  update_is_client_of srv_name server n = record n {
    servers = (StdMap.emplace str_less srv_name (proxy server false) n.servers).0;
  }

  -- `Node::update(NodeIsActionClientOfUpdate)`.
  unfoldable pub update_is_action_client_of : String → PrimaryKey → Node V → Node V
  update_is_action_client_of srv_name server n = record n {
    action_servers = (StdMap.emplace str_less srv_name (proxy server false) n.action_servers).0;
  }

  -- `Node::update(NodeStateUpdate)`, given whether the new state is `ACTIVE`.
  unfoldable pub update_state : Bool → Timestamp → Node V → Node V
  update_state is_alive_now change_time n =
      if xor is_alive_now n.alive
      then record n { alive = is_alive_now; alive_change_time = change_time }
      else n

  -- `Topic::update(TopicPublishersUpdate)`.
  unfoldable pub update_publishers : PrimaryKey → PrimaryKey → Topic V → Topic V
  update_publishers edge publisher t = record t {
    publishers = t.publishers ++ communication_edge edge publisher ∷ [];
  }

  -- `Topic::update(TopicSubscribersUpdate)`.
  unfoldable pub update_subscribers : PrimaryKey → PrimaryKey → Topic V → Topic V
  update_subscribers edge subscriber t = record t {
    subscribers = t.subscribers ++ communication_edge edge subscriber ∷ [];
  }
