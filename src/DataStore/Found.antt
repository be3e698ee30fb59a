-- ===== src/DataStore/Found.antt =====
-- The lookups of data-store.cpp for a member that the store has.
use stream_fdl.Prelude.{ℕ, ◌≡◌, subst, inl, inr, false, ◌==◌, if◌then◌else◌, Bool-cases, ok}
use stream_fdl.DoubleLinkedList.{Ptr, null}
use stream_fdl.DoubleLinkedList.Search.{first_match, find_from-first_match}
use stream_fdl.Members.{PrimaryKey, MemberProxy}
use stream_fdl.DataStore.{Channel, DataStore, node_key_is, topic_key_is, get_node, get_topic, get}
use stream_fdl.DataStore.Messages.Round.{View, IsView}

module _ {V : Type 0} where
  -- Where the view has the member, null where it does not.
  abbrev pub found_at : MemberProxy → View V → Ptr
  found_at m a =
      if m.is_topic
      then first_match (topic_key_is m.primary_key) a.topics
      else first_match (node_key_is m.primary_key) a.nodes

  module _ (ch : Channel V) (rounds : ℕ) where
    pub get_node-found :
        (key : PrimaryKey) (ds : DataStore V) (a : View V)
        → IsView rounds ds a
        → (first_match (node_key_is key) a.nodes == null) ≡ false
        → get_node ch rounds key ds ≡ ok (ds, first_match (node_key_is key) a.nodes)
    unfolding get_node
    get_node-found key ds a is there = rw (
      find_from-first_match (node_key_is key) rounds ds.nodes a.nodes is.nodes_are is.few_nodes,
      there,
    )

    get_topic-found :
        (key : PrimaryKey) (ds : DataStore V) (a : View V)
        → IsView rounds ds a
        → (first_match (topic_key_is key) a.topics == null) ≡ false
        → get_topic ch rounds key ds ≡ ok (ds, first_match (topic_key_is key) a.topics)
    unfolding get_topic
    get_topic-found key ds a is there = rw (
      find_from-first_match (topic_key_is key) rounds ds.topics a.topics is.topics_are
          is.few_topics,
      there,
    )

    -- A member that the store has is found, and the store stays as it is, its use counter included.
    pub get-found :
        (m : MemberProxy) (ds : DataStore V) (a : View V)
        → IsView rounds ds a
        → (found_at m a == null) ≡ false
        → get ch rounds m ds ≡ ok (ds, found_at m a)
    unfolding get
    get-found m ds a is there = elim (Bool-cases m.is_topic) [
      | inl topic ↦ rw topic (
          get_topic-found m.primary_key ds a is (
            subst
              (λ b.
                ((if b
                    then first_match (topic_key_is m.primary_key) a.topics
                    else first_match (node_key_is m.primary_key) a.nodes)
                  == null)
                ≡ false)
              topic there))
      | inr node ↦ rw node (
          get_node-found m.primary_key ds a is (
            subst
              (λ b.
                ((if b
                    then first_match (topic_key_is m.primary_key) a.topics
                    else first_match (node_key_is m.primary_key) a.nodes)
                  == null)
                ≡ false)
              node there))
    ]
