-- ===== src/Examples/Handles.antt =====
-- Handles and members at concrete inputs.
use stream_fdl.Prelude.{
  ℕ, suc, String, ◌≡◌, refl, true, false, some, [], ◌∷◌, ◌++◌, arith, str_eq, ◌==◌, if◌then◌else◌,
}
use stream_fdl.AtomicCounter
use stream_fdl.AtomicCounter.{counter}
use stream_fdl.StdMap
use stream_fdl.StdMap.{str_less}
use stream_fdl.MemberPtr.{change, make_member_ptr, copy_assign}
use stream_fdl.MemberPtr.Ownership.{
  State, holders, Step, Reach, IsCounted, no_handles, Reach-counter, copy_assign-leaks,
}
use stream_fdl.Members.{Node, NodeResponse, make_node, proxy, update_is_server_for}
use stream_fdl.Members.Updates.{
  clients_of, update_is_server_for-clients, NodeUpdate, apply_updates, apply_updates-action_clients,
}

-- One element, at address 5, and a handle to it.
abbrev one_handle : State
one_handle = record {
  handles = (make_member_ptr 5 no_handles.counters).0 ∷ [];
  counters = change (make_member_ptr 5 no_handles.counters).1 5 (λ _. counter 1);
}

one_handle-Reach : Reach no_handles one_handle
one_handle-Reach = Reach.next Reach.here (omega arith) (Step.request 5 (λ e. omega arith) refl refl)

Reach-counter_example :
    ((one_handle.counters 5).value ≡ holders 5 one_handle.handles)
    × (AtomicCounter.non_zero (one_handle.counters 5) ≡ false → holders 5 one_handle.handles ≡ 0)
Reach-counter_example = Reach-counter one_handle 5 one_handle-Reach (λ e. omega arith)

abbrev held : State
held = record { handles = 5 ∷ []; counters = λ p. if p == 5 then counter 1 else counter 0 }

held-IsCounted : IsCounted held
held-IsCounted p n = ground arith

copy_assign-leaks_example :
    ((copy_assign 5 6 held.counters).1 5).value
    ≡ suc (holders 5 ([] ++ (copy_assign 5 6 held.counters).0 ∷ []))
copy_assign-leaks_example =
    copy_assign-leaks [] [] 5 6 held.counters held-IsCounted (λ e. omega arith) (λ e. omega arith)

abbrev talker : NodeResponse
talker = record {
  primary_key = "k1";
  name = "/talker";
  pkg_name = "demo";
  active = true;
  state_change_time = 3;
  boot_count = 1;
  pid = 77;
}

abbrev pub talker_node : Node ℕ
talker_node = record {
  base = record { is_topic = false; primary_key = "k1"; attributes = [] };
  name = "/talker";
  pkg_name = "demo";
  alive = true;
  alive_change_time = 3;
  boot_count = 1;
  process_id = 77;
  clients = ("/set", proxy "k2" false ∷ []) ∷ [];
  action_clients = [];
  servers = [];
  action_servers = [];
  publishes_to = [];
  subscribes_to = [];
}

update_is_server_for-clients_example :
    (StdMap.find str_less "/set" (update_is_server_for "/set" "k3" talker_node).clients
      ≡ some (clients_of "/set" talker_node.clients ++ proxy "k3" false ∷ []))
    × ((j : String)
        → str_eq "/set" j ≡ false
        → StdMap.find str_less j (update_is_server_for "/set" "k3" talker_node).clients
          ≡ StdMap.find str_less j talker_node.clients)
update_is_server_for-clients_example = update_is_server_for-clients talker_node "/set" "k3"

apply_updates-action_clients_example :
    (apply_updates
      (NodeUpdate.is_action_server_for "/go" "k2" ∷ [])
      (make_node {V = ℕ} talker)).action_clients
    ≡ []
apply_updates-action_clients_example =
    apply_updates-action_clients ℕ talker (NodeUpdate.is_action_server_for "/go" "k2" ∷ [])
