-- ===== src/DataStore/Kept.antt =====
-- What the operations of data-store.cpp on handles and lookups keep of the store, as an interface:
-- the other parts change the store through them alone, so what they keep, every part keeps.
use stream_fdl.Prelude.{ℕ, suc, String, str_eq, ◌==◌}
use stream_fdl.Prelude.After.{Any, After, >>=-After, if-After, Outcome-After}
use stream_fdl.AtomicCounter.{AtomicCounter}
use stream_fdl.DoubleLinkedList.{null, find_from}
use stream_fdl.Members.{PrimaryKey, MemberProxy}
use stream_fdl.MemberPtr.{MemberPtr}
use stream_fdl.GraphView.{GraphView}
use stream_fdl.DataStore.{
  Channel, DataStore, value_of, node_key_is, topic_key_is, adjust_counter, request_node,
  request_topic, get_node, get_topic, get_node_by_name, get,
}

-- The store `ds` is as `I` says, and so it is after each of these operations, where it returns.
pub record IsKept {V : Type 0} (ch : Channel V) (rounds : ℕ) (I : DataStore V → Type 0)
    : Type 0 where
  pub counting :
      (f : AtomicCounter → AtomicCounter) (p : MemberPtr) (ds : DataStore V)
      → I ds
      → After Any I (adjust_counter f p ds)
  pub node_requested :
      (k : PrimaryKey) (ds : DataStore V)
      → I ds
      → After Any (λ r. I r.0) (request_node ch rounds k ds)
  pub topic_requested :
      (k : PrimaryKey) (ds : DataStore V)
      → I ds
      → After Any (λ r. I r.0) (request_topic ch rounds k ds)
  -- The number of requests, and the pending updates.
  pub asked : (ds : DataStore V) → I ds → I (record ds { requests = suc ds.requests })
  pub taken : (ds : DataStore V) (pending : GraphView) → I ds → I (record ds { updates = pending })

module _ {V : Type 0} (ch : Channel V) (rounds : ℕ) (I : DataStore V → Type 0)
    (kept : IsKept ch rounds I) where
  get_node-After :
      (k : PrimaryKey) (ds : DataStore V) → I ds → After Any (λ r. I r.0) (get_node ch rounds k ds)
  unfolding get_node
  get_node-After k ds i =
      >>=-After Any _ (find_from (node_key_is k) rounds ds.nodes.heap ds.nodes.first) _
        (Outcome-After _) (λ it _. if-After Any _ (it == null) _ _ (kept.node_requested k ds i) i)

  get_topic-After :
      (k : PrimaryKey) (ds : DataStore V) → I ds → After Any (λ r. I r.0) (get_topic ch rounds k ds)
  unfolding get_topic
  get_topic-After k ds i =
      >>=-After Any _ (find_from (topic_key_is k) rounds ds.topics.heap ds.topics.first) _
        (Outcome-After _) (λ it _. if-After Any _ (it == null) _ _ (kept.topic_requested k ds i) i)

  pub get_node_by_name-After :
      (name : String) (ds : DataStore V)
      → I ds
      → After Any (λ r. I r.0) (get_node_by_name ch rounds name ds)
  unfolding get_node_by_name
  get_node_by_name-After name ds i =
      >>=-After Any _ (find_from (λ n. str_eq n.name name) rounds ds.nodes.heap ds.nodes.first) _
        (Outcome-After _)
        (λ it _.
          if-After Any _ (it == null) _ _
            (>>=-After Any _ (value_of (ch.search_node ds.requests name)) _ (Outcome-After _)
              (λ primary _. if-After Any _ (str_eq primary "") _ _ (kept.asked ds i) (
                kept.node_requested primary (record ds { requests = suc ds.requests })
                  (kept.asked ds i))))
            i)

  pub get-After :
      (m : MemberProxy) (ds : DataStore V) → I ds → After Any (λ r. I r.0) (get ch rounds m ds)
  unfolding get
  get-After m ds i =
      if-After Any _ m.is_topic _ _ (get_topic-After m.primary_key ds i)
        (get_node-After m.primary_key ds i)
