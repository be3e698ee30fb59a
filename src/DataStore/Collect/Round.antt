-- ===== src/DataStore/Collect/Round.antt =====
-- One round of `DataStore::run` of data-store.cpp: the removal of unused members, then the messages.
use stream_fdl.Prelude.{ℕ, zero, suc, ◌≤◌, ◌<◌, ◌≡◌, true, [], ◌∷◌, ◌++◌, arith, length, ok}
use stream_fdl.AtomicCounter.{non_zero}
use stream_fdl.DoubleLinkedList.{DoubleLinkedList}
use stream_fdl.DoubleLinkedList.Segment.{Cells, IsList}
use stream_fdl.DataStore.{DataStore}
use stream_fdl.DataStore.Messages.{Messages}
use stream_fdl.DataStore.Messages.Round.{
  View, IsView, apply_messages, handle_messages-apply_messages,
}
use stream_fdl.DataStore.Collect.{collect_from, run_round}
use stream_fdl.DataStore.Collect.InUse.{in_use, unused_ids, EndsInUse, collect-in_use}

module _ {T : Type 0} where
  -- The first and the last element, if there are any, are in use.
  abbrev pub HasUsedEnds : Cells T → Type 0
  HasUsedEnds [] = Unit {0}
  HasUsedEnds ((p, d) ∷ xs) = (non_zero d.use_counter ≡ true) × EndsInUse xs

  pub length-in_use : (xs : Cells T) → length (in_use xs) ≤ length xs
  length-in_use [] = omega arith
  length-in_use ((p, d) ∷ xs) = ground (arith, length-in_use xs)

  collect_all :
      (fuel : ℕ) (l : DoubleLinkedList T) (xs : Cells T)
      → IsList l xs
      → HasUsedEnds xs
      → length xs < fuel
      → (l' : DoubleLinkedList T) × (collect_from fuel l l.first [] ≡ ok (l', unused_ids xs))
        × IsList l' (in_use xs)
  unfolding collect_from
  collect_all zero l [] is used few = absurd (omega arith)
  collect_all (suc fuel) l [] is used few = (l, rw is.chain.0, is)
  collect_all fuel l ((p, d) ∷ xs) is (first, ends) few =
      collect-in_use fuel l p d xs is first ends few

module _ {V : Type 0} where
  -- The view without the members that are not in use.
  abbrev pub used_view : View V → View V
  used_view a = record a { nodes = in_use a.nodes; topics = in_use a.topics }

  -- On a store with well-formed lists of fewer elements than rounds, whose first and last elements
  -- are in use, a round of `run` succeeds: it unsubscribes from exactly the requests of the members
  -- that are not in use, nodes first, removes exactly these, and then does to the others and to the
  -- pending updates what the messages of the round say.
  pub run_round-apply_messages :
      (rounds : ℕ) (m : Messages) (ds : DataStore V) (a : View V)
      → IsView rounds ds a
      → HasUsedEnds a.nodes
      → HasUsedEnds a.topics
      → (ds' : DataStore V) × (run_round rounds m ds
          ≡ ok (ds', unused_ids a.nodes ++ unused_ids a.topics))
        × IsView rounds ds' (apply_messages m (used_view a))
  unfolding run_round
  run_round-apply_messages rounds m ds a is nodes_used topics_used =
      let (nodes, swept, nodes_are) =
        collect_all rounds ds.nodes a.nodes is.nodes_are nodes_used is.few_nodes in
      let (topics, swept', topics_are) =
        collect_all rounds ds.topics a.topics is.topics_are topics_used is.few_topics in
      let few : length (in_use a.nodes) < rounds =
        omega (arith, length-in_use a.nodes, is.few_nodes) in
      let few' : length (in_use a.topics) < rounds =
        omega (arith, length-in_use a.topics, is.few_topics) in
      let (ds', handled, is') =
        handle_messages-apply_messages rounds m (record ds { nodes = nodes; topics = topics })
          (used_view a)
          record {
            nodes_are = nodes_are;
            topics_are = topics_are;
            updates_are = is.updates_are;
            few_nodes = few;
            few_topics = few';
          } in
      (ds', rw (swept, swept', handled), is')
