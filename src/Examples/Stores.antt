-- ===== src/Examples/Stores.antt =====
-- Stores, watchlists and their rounds at concrete inputs.
use stream_fdl.Prelude.{
  str_eq, true, fault, String, assertion, ℕ, ◌≡◌, refl, false, none, some, List, [], ◌∷◌, arith,
  ◌==◌, if◌then◌else◌, ok,
}
use stream_fdl.AtomicCounter.{counter}
use stream_fdl.DoubleLinkedList.{Entry, element}
use stream_fdl.Members.{Node, proxy}
use stream_fdl.DataStore.{Channel, DataStore, Answer}
use stream_fdl.DataStore.Lookup.{NewIsValid}
use stream_fdl.DataStore.Messages.{Messages}
use stream_fdl.DataStore.Messages.Round.{View, IsView, apply_messages}
use stream_fdl.AtomicCounter.{non_zero}
use stream_fdl.DataStore.Collect.{run_round}
use stream_fdl.DataStore.Collect.Round.{used_view, run_round-apply_messages}
use stream_fdl.Watchlist.{Watchlist, initial, normal, add_member}
use stream_fdl.Examples.Handles.{talker_node}
use stream_fdl.AtomicCounter.{decrease}
use stream_fdl.DataStore.{get_node, member_at, adjust_counter}
use stream_fdl.DataStore.Dangling.{get_node-dangles}
use stream_fdl.DoubleLinkedList.Search.{first_match}
use stream_fdl.Watchlist.{try_initialise}
use stream_fdl.Watchlist.Initialise.{with_first, HasSameNodes, try_initialise-with_first}
use stream_fdl.Members.{NodeResponse}
use stream_fdl.Members.Attributes.{numerical}
use stream_fdl.DataStore.{AttributeAnswer}
use stream_fdl.DoubleLinkedList.Append.{fresh_entry}
use stream_fdl.DataStore.Requested.{requested_node, get_node-requested}
use stream_fdl.DataStore.{request_node}
use stream_fdl.Watchlist.Adding.{add_member-outcome}

abbrev pub talker_entry : Entry (Node ℕ)
talker_entry = record { instance_value = talker_node; request_id = 8; use_counter = counter 1 }

-- A store of one node, at address 1.
abbrev pub store : DataStore ℕ
store = record {
  nodes = record {
    heap = λ p. if p == 1 then some (element 0 0 talker_entry) else none;
    first = 1;
    last = 1;
  };
  topics = record { heap = λ p. none; first = 0; last = 0 };
  updates = [];
  parameter_events_key = "pe";
  rosout_key = "ro";
  requests = 0;
}

abbrev pub store_view : View ℕ
store_view = record { nodes = (1, talker_entry) ∷ []; topics = []; updates = [] }

pub store-IsView : IsView 4 store store_view
store-IsView = record {
  nodes_are = record {
    chain = (refl, (λ e. omega arith), refl, (0, refl, (refl, refl)));
    closed = λ a o. ground arith;
  };
  topics_are = record { chain = (refl, refl); closed = λ a o. refl };
  updates_are = refl;
  few_nodes = omega arith;
  few_topics = omega arith;
}

abbrev news : Messages
news = record {
  publishers_to = none;
  subscribers_to = some ("k1", "t1");
  is_server_for = none;
  is_client_of = none;
  is_action_server_for = none;
  is_action_client_of = none;
  state = some ("k1", false, 12);
  publishers = some ("t9", "e1", "k1");
  subscribers = none;
}

run_round-apply_messages_example :
    (ds' : DataStore ℕ) × (run_round 4 news store ≡ ok (ds', []))
    × IsView 4 ds' (apply_messages news (used_view store_view))
unfolding non_zero
run_round-apply_messages_example =
    run_round-apply_messages 4 news store store_view store-IsView (refl, tt) tt

abbrev silent : {R : Type 0} → ℕ → Answer ℕ R
silent id = record { address = 7; request_id = id; response = none; attribute = none }

abbrev pub channel : Channel ℕ
channel = record {
  cpu_utilisation = "cpu";
  search_node = λ id name. some "";
  search_topic = λ id name. some "";
  request_node = λ id key. silent id;
  request_topic = λ id key. silent id;
}

pub channel-NewIsValid : NewIsValid channel
channel-NewIsValid = ((λ id key. refl), (λ id key. refl))

abbrev pub watched : Watchlist
watched = record { initial_member_names = "/talker" ∷ "/other" ∷ []; members = (1, initial) ∷ [] }

add_member-outcome_example :
    add_member channel 4 (proxy "k1" false) normal watched store ≡ fault assertion
unfolding first_match
add_member-outcome_example =
    add_member-outcome channel 4 (proxy "k1" false) normal watched store store_view store-IsView
      refl (refl, (_, refl), tt)

abbrev named : String → Entry (Node ℕ)
named key = record talker_entry {
  instance_value = record talker_node { base = record talker_node.base { primary_key = key } };
}

-- A store of three nodes.
abbrev pub three_nodes : DataStore ℕ
three_nodes = record store {
  nodes = record {
    heap = λ p.
        if p == 1
        then some (element 0 2 (named "k1"))
        else (if p == 2
            then some (element 1 3 (named "k2"))
            else (if p == 3 then some (element 2 0 (named "k3")) else none));
    first = 1;
    last = 3;
  };
}

abbrev three_view : View ℕ
three_view = record {
  nodes = (1, named "k1") ∷ (2, named "k2") ∷ (3, named "k3") ∷ [];
  topics = [];
  updates = [];
}

three-IsView : IsView 4 three_nodes three_view
three-IsView = record {
  nodes_are = record {
    chain = (
      refl,
      (λ e. omega arith),
      refl,
      (
        2,
        refl,
        (
          refl,
          (λ e. omega arith),
          refl,
          (3, refl, (refl, (λ e. omega arith), refl, (0, refl, (refl, refl)))),
        ),
      ),
    );
    closed = λ a o. ground arith;
  };
  topics_are = record { chain = (refl, refl); closed = λ a o. refl };
  updates_are = refl;
  few_nodes = omega arith;
  few_topics = omega arith;
}

get_node-dangles_example :
    (get_node channel 4 "k2" three_nodes ≡ ok (three_nodes, 2))
    × ((ds₁ : DataStore ℕ) × (adjust_counter decrease 2 three_nodes ≡ ok ds₁)
        × ((ds₂ : DataStore ℕ) × (ids : List ℕ) × (run_round 4 news ds₁ ≡ ok (ds₂, ids))
            × (member_at ds₂ 2 ≡ none)))
unfolding first_match non_zero
get_node-dangles_example =
    get_node-dangles channel 4 "k2" news three_nodes three_view ((1, named "k1") ∷ [])
      ((3, named "k3") ∷ []) 2 (named "k2") three-IsView refl refl refl refl (refl, refl) tt

-- The first search finds nothing.
abbrev pub late_channel : Channel ℕ
late_channel = record channel { search_topic = λ id name. some (if id == 0 then "" else "k7") }

abbrev two_names : Watchlist
two_names = record { initial_member_names = "/talker" ∷ "/talker" ∷ []; members = [] }

try_initialise-with_first_example :
    (ds' : DataStore ℕ) × (b : View ℕ) × (try_initialise channel 4 two_names three_nodes
      ≡ ok (
        record {
          initial_member_names = [];
          members = with_first three_view ("/talker" ∷ "/talker" ∷ []) [];
        },
        ds',
      ))
    × IsView 4 ds' b
    × HasSameNodes three_view b
unfolding first_match
try_initialise-with_first_example =
    try_initialise-with_first channel 4 two_names three_nodes three_view three-IsView
      (refl, (refl, tt)) tt

abbrev listener : NodeResponse
listener = record {
  primary_key = "k9";
  name = "/listener";
  pkg_name = "demo";
  state_change_time = 6;
  active = true;
  boot_count = 1;
  pid = 90;
}

abbrev cpu_load : AttributeAnswer ℕ
cpu_load = record { sent_id = 6; response_id = 6; memory_address = "/cpu"; first = numerical 3 }

abbrev pub listener_answer : Answer ℕ NodeResponse
listener_answer = record {
  address = 7;
  request_id = 5;
  response = some listener;
  attribute = some cpu_load;
}

abbrev answering : Channel ℕ
answering = record channel { request_node = λ id key. listener_answer }

get_node-requested_example :
    (ds' : DataStore ℕ) × (get_node answering 4 "k9" store ≡ ok (ds', 7))
    × IsView 4 ds' (record store_view {
      nodes =
          (1, talker_entry)
          ∷ (7, fresh_entry (requested_node answering 4 listener cpu_load 3) 5)
          ∷ [];
    })
    × (get_node answering 4 "k9" ds' ≡ (
        if str_eq listener.primary_key "k9"
        then ok (ds', 7)
        else request_node answering 4 "k9" ds'))
unfolding first_match
get_node-requested_example =
    get_node-requested answering 4 "k9" store store_view listener_answer listener cpu_load 3
      store-IsView (omega arith) refl refl refl refl refl refl (λ e. omega arith) refl
