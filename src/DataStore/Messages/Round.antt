-- ===== src/DataStore/Messages/Round.antt =====
-- A round of messages against an abstract store: the entries of the two lists, and the pending
-- updates (data-store.cpp).
use stream_fdl.Prelude.{
  ℕ, ◌<◌, ◌≡◌, refl, Option, none, some, ◌==◌, if◌then◌else◌, length, Outcome, ok, ◌>>=◌,
}
use stream_fdl.DoubleLinkedList.{null}
use stream_fdl.DoubleLinkedList.Segment.{Cells, IsList}
use stream_fdl.DoubleLinkedList.Search.{first_match}
use stream_fdl.Members.{
  PrimaryKey, Node, Topic, update_publishers_to, update_subscribers_to, update_is_server_for,
  update_is_client_of, update_is_action_server_for, update_is_action_client_of, update_state,
  update_publishers, update_subscribers,
}
use stream_fdl.GraphView.{GraphView, add_sub_update, add_send_update, add_pub_update}
use stream_fdl.DataStore.{DataStore, node_key_is, topic_key_is}
use stream_fdl.DataStore.Messages.{
  Messages, update_node, update_topic, on_publishers_to, on_subscribers_to, on_is_server_for,
  on_is_client_of, on_is_action_server_for, on_is_action_client_of, on_state, on_publishers,
  on_subscribers, handle_messages,
}
use stream_fdl.DataStore.Messages.Entries.{
  update_first, update_where-update_first, length-update_first,
}

pub record View (V : Type 0) : Type 0 where
  pub nodes : Cells (Node V)
  pub topics : Cells (Topic V)
  pub updates : GraphView

module _ {V : Type 0} where
  pub record IsView (rounds : ℕ) (ds : DataStore V) (a : View V) : Type 0 where
    pub nodes_are : IsList ds.nodes a.nodes
    pub topics_are : IsList ds.topics a.topics
    pub updates_are : ds.updates ≡ a.updates
    pub few_nodes : length a.nodes < rounds
    pub few_topics : length a.topics < rounds

  -- The member with the key, where there is one, is changed by `f`, and then `log` follows.
  unfoldable pub change_node :
      PrimaryKey → (Node V → Node V) → (GraphView → GraphView) → View V → View V
  change_node key f log a = record a {
    nodes = update_first (node_key_is key) f a.nodes;
    updates = if first_match (node_key_is key) a.nodes == null then a.updates else log a.updates;
  }

  unfoldable pub change_topic :
      PrimaryKey → (Topic V → Topic V) → (GraphView → GraphView) → View V → View V
  change_topic key f log a = record a {
    topics = update_first (topic_key_is key) f a.topics;
    updates = if first_match (topic_key_is key) a.topics == null then a.updates else log a.updates;
  }

  unfoldable pub optionally : {M : Type 0} → (M → View V → View V) → Option M → View V → View V
  optionally f none a = a
  optionally f (some m) a = f m a

  -- What a round of messages means.
  unfoldable pub apply_messages : Messages → View V → View V
  unfolding optionally
  apply_messages m a =
      let a₁ =
        optionally (λ (key, topic). change_node key (update_publishers_to topic) (λ g. g))
          m.publishers_to a in
      let a₂ =
        optionally
          (λ (key, topic). change_node key (update_subscribers_to topic) (add_sub_update key topic))
          m.subscribers_to a₁ in
      let a₃ =
        optionally (λ (key, s, c). change_node key (update_is_server_for s c) (λ g. g))
          m.is_server_for a₂ in
      let a₄ =
        optionally
          (λ (key, s, o). change_node key (update_is_client_of s o) (add_send_update key o))
          m.is_client_of a₃ in
      let a₅ =
        optionally (λ (key, s, c). change_node key (update_is_action_server_for s c) (λ g. g))
          m.is_action_server_for a₄ in
      let a₆ =
        optionally
          (λ (key, s, o). change_node key (update_is_action_client_of s o) (add_send_update key o))
          m.is_action_client_of a₅ in
      let a₇ =
        optionally (λ (key, active, time). change_node key (update_state active time) (λ g. g))
          m.state a₆ in
      let a₈ =
        optionally (λ (key, e, n). change_topic key (update_publishers e n) (add_pub_update key n))
          m.publishers a₇ in
      optionally (λ (key, e, n). change_topic key (update_subscribers e n) (λ g. g)) m.subscribers
        a₈

  module _ (rounds : ℕ) where
    abbrev Simulates : Outcome (DataStore V) → View V → Type 0
    Simulates out a = (ds : DataStore V) × (out ≡ ok ds) × IsView rounds ds a

    bind-Simulates :
        (out : Outcome (DataStore V)) (k : DataStore V → Outcome (DataStore V)) (a b : View V)
        → Simulates out a
        → ((ds : DataStore V) → IsView rounds ds a → Simulates (k ds) b)
        → Simulates (out >>= k) b
    bind-Simulates out k a b (ds, done, is) next =
        let (ds', done', is') = next ds is in (ds', rw done done', is')

    update_node-Simulates :
        (key : PrimaryKey) (f : Node V → Node V) (log : GraphView → GraphView) (ds : DataStore V)
        (a : View V)
        → IsView rounds ds a
        → Simulates (update_node rounds key f log ds) (change_node key f log a)
    unfolding update_node change_node
    update_node-Simulates key f log ds a is =
        let (l, done, is') =
          update_where-update_first (node_key_is key) f rounds ds.nodes a.nodes is.nodes_are
            is.few_nodes in
        (
          record ds {
            nodes = l;
            updates =
                if first_match (node_key_is key) a.nodes == null
                then ds.updates
                else log ds.updates;
          },
          rw done,
          record {
            nodes_are = is';
            topics_are = is.topics_are;
            updates_are = rw is.updates_are;
            few_nodes = rw (length-update_first (node_key_is key) f a.nodes) is.few_nodes;
            few_topics = is.few_topics;
          },
        )

    update_topic-Simulates :
        (key : PrimaryKey) (f : Topic V → Topic V) (log : GraphView → GraphView) (ds : DataStore V)
        (a : View V)
        → IsView rounds ds a
        → Simulates (update_topic rounds key f log ds) (change_topic key f log a)
    unfolding update_topic change_topic
    update_topic-Simulates key f log ds a is =
        let (l, done, is') =
          update_where-update_first (topic_key_is key) f rounds ds.topics a.topics is.topics_are
            is.few_topics in
        (
          record ds {
            topics = l;
            updates =
                if first_match (topic_key_is key) a.topics == null
                then ds.updates
                else log ds.updates;
          },
          rw done,
          record {
            nodes_are = is.nodes_are;
            topics_are = is';
            updates_are = rw is.updates_are;
            few_nodes = is.few_nodes;
            few_topics = rw (length-update_first (topic_key_is key) f a.topics) is.few_topics;
          },
        )

    -- A handler that does nothing without a message, and otherwise simulates.
    optional-Simulates :
        {M : Type 0} (on : Option M → DataStore V → Outcome (DataStore V)) (f : M → View V → View V)
        → ((ds : DataStore V) → on none ds ≡ ok ds)
        → ((m : M) (ds : DataStore V) (a : View V)
            → IsView rounds ds a
            → Simulates (on (some m) ds) (f m a))
        → (m : Option M) (ds : DataStore V) (a : View V) → IsView rounds ds a
        → Simulates (on m ds) (optionally f m a)
    unfolding optionally
    optional-Simulates on f idle busy none ds a is = (ds, idle ds, is)
    optional-Simulates on f idle busy (some m) ds a is = busy m ds a is

    -- On a store with well-formed lists of fewer elements than rounds, a round of messages succeeds
    -- and does to the lists and the pending updates what `apply_messages` says: each message changes
    -- the first member with its key, if there is one, and is dropped otherwise.
    pub handle_messages-apply_messages :
        (m : Messages) (ds : DataStore V) (a : View V)
        → IsView rounds ds a
        → (ds' : DataStore V) × (handle_messages rounds m ds ≡ ok ds')
          × IsView rounds ds' (apply_messages m a)
    unfolding handle_messages apply_messages on_publishers_to on_subscribers_to on_is_server_for
        on_is_client_of on_is_action_server_for on_is_action_client_of on_state on_publishers
        on_subscribers
    handle_messages-apply_messages m ds a is =
        bind-Simulates _ _ _ _
          (optional-Simulates (on_publishers_to rounds) _ (λ d. refl)
            (λ (key, t). update_node-Simulates key _ _) m.publishers_to ds a is)
          λ ds₁ is₁.
            bind-Simulates _ _ _ _
              (optional-Simulates (on_subscribers_to rounds) _ (λ d. refl)
                (λ (key, t). update_node-Simulates key _ _) m.subscribers_to ds₁ _ is₁)
              λ ds₂ is₂.
                bind-Simulates _ _ _ _
                  (optional-Simulates (on_is_server_for rounds) _ (λ d. refl)
                    (λ (key, s, c). update_node-Simulates key _ _) m.is_server_for ds₂ _ is₂)
                  λ ds₃ is₃.
                    bind-Simulates _ _ _ _
                      (optional-Simulates (on_is_client_of rounds) _ (λ d. refl)
                        (λ (key, s, c). update_node-Simulates key _ _) m.is_client_of ds₃ _ is₃)
                      λ ds₄ is₄.
                        bind-Simulates _ _ _ _
                          (optional-Simulates (on_is_action_server_for rounds) _ (λ d. refl)
                            (λ (key, s, c). update_node-Simulates key _ _) m.is_action_server_for
                            ds₄ _ is₄)
                          λ ds₅ is₅.
                            bind-Simulates _ _ _ _
                              (optional-Simulates (on_is_action_client_of rounds) _ (λ d. refl)
                                (λ (key, s, c). update_node-Simulates key _ _) m.is_action_client_of
                                ds₅ _ is₅)
                              λ ds₆ is₆.
                                bind-Simulates _ _ _ _
                                  (optional-Simulates (on_state rounds) _ (λ d. refl)
                                    (λ (key, s, c). update_node-Simulates key _ _) m.state ds₆ _
                                    is₆)
                                  λ ds₇ is₇.
                                    bind-Simulates _ _ _ _
                                      (optional-Simulates (on_publishers rounds) _ (λ d. refl)
                                        (λ (key, s, c). update_topic-Simulates key _ _) m.publishers
                                        ds₇ _ is₇)
                                      λ ds₈ is₈.
                                        optional-Simulates (on_subscribers rounds) _ (λ d. refl)
                                          (λ (key, s, c). update_topic-Simulates key _ _)
                                          m.subscribers ds₈ _ is₈
