-- ===== src/DataStore/Typed/Rounds.antt =====
-- A round of data-store.cpp keeps the class and the attributes of the members.
use stream_fdl.Prelude.{
  ℕ, zero, suc, String, ◌≡◌, refl, sym, subst, Bool, true, false, Option, none, some, List, [], ◌∷◌,
  ◌++◌, arith, ◌==◌,
}
use stream_fdl.Prelude.After.{Any, After, >>=-After, if-After, Outcome-After}
use stream_fdl.DoubleLinkedList.{Ptr, null, DoubleLinkedList, load, find_from}
use stream_fdl.DoubleLinkedList.Every.{Every}
use stream_fdl.GraphView.{GraphView}
use stream_fdl.Members.{PrimaryKey, Node, Topic}
use stream_fdl.DataStore.{Channel, DataStore, node_key_is, topic_key_is, modify_entry}
use stream_fdl.DataStore.Typed.{IsBase, IsNode, IsTopic, IsTyped, modify_entry-Every}
use stream_fdl.DoubleLinkedList.{advance, erase}
use stream_fdl.DoubleLinkedList.Every.{erase-Every}
use stream_fdl.DataStore.Collect.{collect_from, run_round}
use stream_fdl.AtomicCounter.{non_zero}
use stream_fdl.Members.{
  Timestamp, update_publishers_to, update_subscribers_to, update_is_server_for, update_is_client_of,
  update_is_action_server_for, update_is_action_client_of, update_state, update_publishers,
  update_subscribers,
}
use stream_fdl.DataStore.Messages.{
  Messages, update_where, update_node, update_topic, on_publishers_to, on_subscribers_to,
  on_is_server_for, on_is_client_of, on_is_action_server_for, on_is_action_client_of, on_state,
  on_publishers, on_subscribers, handle_messages,
}

collect_from-Every :
    {T : Type 0} (P : Ptr → T → Type 0) (fuel : ℕ) (l : DoubleLinkedList T) (it : Ptr)
    (ids : List ℕ)
    → Every P l.heap
    → After Any (λ r. Every P r.0.heap) (collect_from fuel l it ids)
unfolding collect_from
collect_from-Every P zero l it ids every = tt
collect_from-Every P (suc fuel) l it ids every = if-After Any _ (it == null) _ _ every (
    >>=-After Any _ (load l.heap it) _ (Outcome-After _) (λ e _.
      if-After Any _ (non_zero e.entry.use_counter) _ _
        (>>=-After Any _ (advance l.heap it) _ (Outcome-After _)
          (λ it' _. collect_from-Every P fuel l it' ids every))
        (>>=-After Any _ (erase l it) _ (erase-Every P l it every)
          (λ r every'. collect_from-Every P fuel r.0 r.1 (ids ++ e.entry.request_id ∷ []) every'))))

update_where-Every :
    {T : Type 0} (P : Ptr → T → Type 0) (test : T → Bool) (f : T → T) (rounds : ℕ)
    (l : DoubleLinkedList T)
    → ((a : Ptr) (t : T) → P a t → P a (f t))
    → Every P l.heap
    → After Any (λ r. Every P r.0.heap) (update_where test f rounds l)
unfolding update_where
update_where-Every P test f rounds l keeps every =
    >>=-After Any _ (find_from test rounds l.heap l.first) _ (Outcome-After _) (λ it _.
      if-After Any _ (it == null) _ _ every (
        >>=-After Any _ (modify_entry _ l it) _
          (modify_entry-Every P _ l it (λ a e _ at. every a e at)
            (λ e at. keeps it e.entry.instance_value (every it e at)))
          (λ l' every'. every')))

module _ {V : Type 0} (ch : Channel V) (rounds : ℕ) where
  update_node-After :
      (key : PrimaryKey) (f : Node V → Node V) (log : GraphView → GraphView) (ds : DataStore V)
      → ((n : Node V) → (f n).base ≡ n.base)
      → IsTyped ch ds
      → After Any (IsTyped ch) (update_node rounds key f log ds)
  unfolding update_node
  update_node-After key f log ds same typed =
      >>=-After Any _ (update_where (node_key_is key) f rounds ds.nodes) _
        (update_where-Every (λ a n. IsNode ch.cpu_utilisation n) (node_key_is key) f rounds ds.nodes
          (λ a n is. subst (IsBase false ch.cpu_utilisation) (sym (same n)) is) typed.nodes_are)
        (λ r nodes_are. record { nodes_are = nodes_are; topics_are = typed.topics_are })

  update_topic-After :
      (key : PrimaryKey) (f : Topic V → Topic V) (log : GraphView → GraphView) (ds : DataStore V)
      → ((t : Topic V) → (f t).base ≡ t.base)
      → IsTyped ch ds
      → After Any (IsTyped ch) (update_topic rounds key f log ds)
  unfolding update_topic
  update_topic-After key f log ds same typed =
      >>=-After Any _ (update_where (topic_key_is key) f rounds ds.topics) _
        (update_where-Every (λ a t. IsTopic ch.cpu_utilisation t) (topic_key_is key) f rounds
          ds.topics (λ a t is. subst (IsBase true ch.cpu_utilisation) (sym (same t)) is)
          typed.topics_are)
        (λ r topics_are. record { nodes_are = typed.nodes_are; topics_are = topics_are })

  update_state-base :
      (active : Bool) (time : Timestamp) (n : Node V) → (update_state active time n).base ≡ n.base
  unfolding update_state
  update_state-base active time n = ground arith

  on_publishers_to-After :
      (m : Option (PrimaryKey × PrimaryKey)) (ds : DataStore V)
      → IsTyped ch ds
      → After Any (IsTyped ch) (on_publishers_to rounds m ds)
  unfolding on_publishers_to update_publishers_to
  on_publishers_to-After none ds typed = typed
  on_publishers_to-After (some (key, to)) ds typed =
      update_node-After key (update_publishers_to to) _ ds (λ x. refl) typed

  on_subscribers_to-After :
      (m : Option (PrimaryKey × PrimaryKey)) (ds : DataStore V)
      → IsTyped ch ds
      → After Any (IsTyped ch) (on_subscribers_to rounds m ds)
  unfolding on_subscribers_to update_subscribers_to
  on_subscribers_to-After none ds typed = typed
  on_subscribers_to-After (some (key, to)) ds typed =
      update_node-After key (update_subscribers_to to) _ ds (λ x. refl) typed

  on_is_server_for-After :
      (m : Option (PrimaryKey × String × PrimaryKey)) (ds : DataStore V)
      → IsTyped ch ds
      → After Any (IsTyped ch) (on_is_server_for rounds m ds)
  unfolding on_is_server_for update_is_server_for
  on_is_server_for-After none ds typed = typed
  on_is_server_for-After (some (key, service, client)) ds typed =
      update_node-After key (update_is_server_for service client) _ ds (λ x. refl) typed

  on_is_client_of-After :
      (m : Option (PrimaryKey × String × PrimaryKey)) (ds : DataStore V)
      → IsTyped ch ds
      → After Any (IsTyped ch) (on_is_client_of rounds m ds)
  unfolding on_is_client_of update_is_client_of
  on_is_client_of-After none ds typed = typed
  on_is_client_of-After (some (key, service, server)) ds typed =
      update_node-After key (update_is_client_of service server) _ ds (λ x. refl) typed

  on_is_action_server_for-After :
      (m : Option (PrimaryKey × String × PrimaryKey)) (ds : DataStore V)
      → IsTyped ch ds
      → After Any (IsTyped ch) (on_is_action_server_for rounds m ds)
  unfolding on_is_action_server_for update_is_action_server_for
  on_is_action_server_for-After none ds typed = typed
  on_is_action_server_for-After (some (key, service, client)) ds typed =
      update_node-After key (update_is_action_server_for service client) _ ds (λ x. refl) typed

  on_is_action_client_of-After :
      (m : Option (PrimaryKey × String × PrimaryKey)) (ds : DataStore V)
      → IsTyped ch ds
      → After Any (IsTyped ch) (on_is_action_client_of rounds m ds)
  unfolding on_is_action_client_of update_is_action_client_of
  on_is_action_client_of-After none ds typed = typed
  on_is_action_client_of-After (some (key, service, server)) ds typed =
      update_node-After key (update_is_action_client_of service server) _ ds (λ x. refl) typed

  on_state-After :
      (m : Option (PrimaryKey × Bool × Timestamp)) (ds : DataStore V)
      → IsTyped ch ds
      → After Any (IsTyped ch) (on_state rounds m ds)
  unfolding on_state
  on_state-After none ds typed = typed
  on_state-After (some (key, active, time)) ds typed =
      update_node-After key (update_state active time) _ ds (update_state-base active time) typed

  on_publishers-After :
      (m : Option (PrimaryKey × PrimaryKey × PrimaryKey)) (ds : DataStore V)
      → IsTyped ch ds
      → After Any (IsTyped ch) (on_publishers rounds m ds)
  unfolding on_publishers update_publishers
  on_publishers-After none ds typed = typed
  on_publishers-After (some (key, edge, publisher)) ds typed =
      update_topic-After key (update_publishers edge publisher) _ ds (λ x. refl) typed

  on_subscribers-After :
      (m : Option (PrimaryKey × PrimaryKey × PrimaryKey)) (ds : DataStore V)
      → IsTyped ch ds
      → After Any (IsTyped ch) (on_subscribers rounds m ds)
  unfolding on_subscribers update_subscribers
  on_subscribers-After none ds typed = typed
  on_subscribers-After (some (key, edge, subscriber)) ds typed =
      update_topic-After key (update_subscribers edge subscriber) _ ds (λ x. refl) typed

  handle_messages-After :
      (m : Messages) (ds : DataStore V)
      → IsTyped ch ds
      → After Any (IsTyped ch) (handle_messages rounds m ds)
  unfolding handle_messages
  handle_messages-After m ds typed =
      >>=-After Any _ (on_publishers_to rounds m.publishers_to ds) _
        (on_publishers_to-After m.publishers_to ds typed)
        (λ ds1 typed1.
          >>=-After Any _ (on_subscribers_to rounds m.subscribers_to ds1) _
            (on_subscribers_to-After m.subscribers_to ds1 typed1)
            (λ ds2 typed2.
              >>=-After Any _ (on_is_server_for rounds m.is_server_for ds2) _
                (on_is_server_for-After m.is_server_for ds2 typed2)
                (λ ds3 typed3.
                  >>=-After Any _ (on_is_client_of rounds m.is_client_of ds3) _
                    (on_is_client_of-After m.is_client_of ds3 typed3)
                    (λ ds4 typed4.
                      >>=-After Any _ (on_is_action_server_for rounds m.is_action_server_for ds4) _
                        (on_is_action_server_for-After m.is_action_server_for ds4 typed4)
                        (λ ds5 typed5.
                          >>=-After Any _ (on_is_action_client_of rounds m.is_action_client_of ds5)
                            _ (on_is_action_client_of-After m.is_action_client_of ds5 typed5)
                            (λ ds6 typed6.
                              >>=-After Any _ (on_state rounds m.state ds6) _
                                (on_state-After m.state ds6 typed6)
                                (λ ds7 typed7.
                                  >>=-After Any _ (on_publishers rounds m.publishers ds7) _
                                    (on_publishers-After m.publishers ds7 typed7)
                                    (λ ds8 typed8.
                                      on_subscribers-After m.subscribers ds8 typed8))))))))

  pub run_round-After :
      (m : Messages) (ds : DataStore V)
      → IsTyped ch ds
      → After Any (λ r. IsTyped ch r.0) (run_round rounds m ds)
  unfolding run_round
  run_round-After m ds typed =
      >>=-After Any _ (collect_from rounds ds.nodes ds.nodes.first []) _
        (collect_from-Every (λ a n. IsNode ch.cpu_utilisation n) rounds ds.nodes ds.nodes.first []
          typed.nodes_are)
        (λ r nodes_are.
          >>=-After Any _ (collect_from rounds ds.topics ds.topics.first []) _
            (collect_from-Every (λ a t. IsTopic ch.cpu_utilisation t) rounds ds.topics
              ds.topics.first [] typed.topics_are)
            (λ r' topics_are.
              >>=-After Any _ (handle_messages rounds m _) _
                (handle_messages-After m _
                  record { nodes_are = nodes_are; topics_are = topics_are })
                (λ _ typed'. typed')))
