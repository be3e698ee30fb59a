-- ===== src/DataStore/Collect.antt =====
-- The first half of a round of `DataStore::run` in data-store.cpp: elements that nothing uses are
-- unsubscribed and erased.
use stream_fdl.Prelude.{
  ℕ, zero, suc, ◌+◌, List, [], ◌∷◌, ◌++◌, ◌==◌, if◌then◌else◌, out_of_fuel, Outcome, ok, fault,
  ◌>>=◌,
}
pub mod InUse
pub mod Round
use stream_fdl.AtomicCounter.{non_zero}
use stream_fdl.DoubleLinkedList.{Ptr, null, Entry, DoubleLinkedList, load, advance, erase}
use stream_fdl.DataStore.{DataStore}
use stream_fdl.DataStore.Messages.{Messages, handle_messages}

-- The loop from an iterator on, with the ids of the requests that were unsubscribed from.
unfoldable pub collect_from :
    {T : Type 0} → ℕ → DoubleLinkedList T → Ptr → List ℕ → Outcome (DoubleLinkedList T × List ℕ)
collect_from zero l it ids = fault out_of_fuel
collect_from (suc fuel) l it ids = if it == null then ok (l, ids) else do
  e ← load l.heap it
  if non_zero e.entry.use_counter
      then (do it' ← advance l.heap it; collect_from fuel l it' ids)
      else (do (l', it') ← erase l it; collect_from fuel l' it' (ids ++ e.entry.request_id ∷ []))

-- One round of `run`: the state after it, and the requests that were unsubscribed from.
unfoldable pub run_round :
    {V : Type 0} → ℕ → Messages → DataStore V → Outcome (DataStore V × List ℕ)
run_round rounds m ds = do
  (nodes, node_ids) ← collect_from rounds ds.nodes ds.nodes.first []
  (topics, topic_ids) ← collect_from rounds ds.topics ds.topics.first []
  ds' ← handle_messages rounds m (record ds { nodes = nodes; topics = topics })
  ok (ds', node_ids ++ topic_ids)
