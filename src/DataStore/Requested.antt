-- ===== src/DataStore/Requested.antt =====
-- The lookup of a node in data-store.cpp that the store does not have: it is requested.
use stream_fdl.Prelude.{
  ℕ, suc, ◌<◌, ◌≡◌, subst, ◌≢◌, inl, inr, Bool, true, false, none, some, [], ◌∷◌, ◌++◌, arith,
  str_eq, ◌==◌, if◌then◌else◌, Bool-cases, length, length-append, ok, ◌>>=◌,
}
use stream_fdl.DoubleLinkedList.{Ptr, null, Entry, Heap}
use stream_fdl.DoubleLinkedList.Segment.{Cells, Seg, IsList}
use stream_fdl.DoubleLinkedList.Search.{first_match, find_from-first_match}
use stream_fdl.DoubleLinkedList.Append.{fresh_entry, emplace_back-append}
use stream_fdl.Members.{PrimaryKey, Node, NodeResponse, make_node}
use stream_fdl.Members.Attributes.{numerical, add_attribute_source}
use stream_fdl.DataStore.{
  Channel, DataStore, Answer, AttributeAnswer, node_key_is, add_source, request_node, get_node,
}
use stream_fdl.DataStore.Messages.Entries.{modify_entry-IsList}
use stream_fdl.DataStore.Messages.Round.{View, IsView}

module _ {T : Type 0} where
  -- A search that finds nothing in a list goes on to an element behind it.
  first_match-behind :
      (test : T → Bool) (h : Heap T) (stop prev p last : Ptr) (xs : Cells T) (q : Ptr) (d : Entry T)
      → Seg h stop prev p xs last
      → first_match test xs ≡ null
      → test d.instance_value ≡ true
      → first_match test (xs ++ (q, d) ∷ []) ≡ q
  unfolding first_match
  first_match-behind test h stop prev p last [] q d s missing hit = rw hit
  first_match-behind test h stop prev p last ((a, x) ∷ xs) q d (e, n, out, (r, at, s)) missing hit =
      elim (Bool-cases (test x.instance_value)) [
        | inl found ↦
            absurd (n (subst (λ b. (if b then a else first_match test xs) ≡ null) found missing))
        | inr other ↦ rw other (
            first_match-behind test h stop a r last xs q d s
              (subst (λ b. (if b then a else first_match test xs) ≡ null) other missing) hit)
      ]

  first_match-missing :
      (test : T → Bool) (xs : Cells T) (q : Ptr) (d : Entry T)
      → first_match test xs ≡ null
      → test d.instance_value ≡ false
      → first_match test (xs ++ (q, d) ∷ []) ≡ null
  unfolding first_match
  first_match-missing test [] q d missing other = rw other
  first_match-missing test ((a, x) ∷ xs) q d missing other =
      elim (Bool-cases (test x.instance_value)) [
        | inl found ↦
            rw found (subst (λ b. (if b then a else first_match test xs) ≡ null) found missing)
        | inr later ↦ rw later (
            first_match-missing test xs q d
              (subst (λ b. (if b then a else first_match test xs) ≡ null) later missing) other)
      ]

module _ {V : Type 0} (ch : Channel V) (rounds : ℕ) where
  -- The node of an answer, with its attribute for the CPU load.
  abbrev pub requested_node : NodeResponse → AttributeAnswer V → V → Node V
  requested_node r attribute v = record (make_node r) {
    base = record (make_node {V = V} r).base {
      attributes =
          (make_node {V = V} r).base.attributes
          ++ record {
            name = ch.cpu_utilisation;
            shared_memory = attribute.memory_address;
            request_id = attribute.response_id;
            last_value = v;
          }
            ∷ [];
    };
  }

  -- A lookup after a node has been put behind the others.
  get_node-added :
      (key : PrimaryKey) (ds : DataStore V) (xs : Cells (Node V)) (q : Ptr) (e : Entry (Node V))
      → IsList ds.nodes (xs ++ (q, e) ∷ [])
      → length (xs ++ (q, e) ∷ []) < rounds
      → (q == null) ≡ false
      → (node_key_is key e.instance_value ≡ true
          → first_match (node_key_is key) (xs ++ (q, e) ∷ []) ≡ q)
      → first_match (node_key_is key) xs ≡ null
      → get_node ch rounds key ds
        ≡ (if node_key_is key e.instance_value then ok (ds, q) else request_node ch rounds key ds)
  unfolding get_node
  get_node-added key ds xs q e is few valid behind missing =
      let found =
        find_from-first_match (node_key_is key) rounds ds.nodes (xs ++ (q, e) ∷ []) is few in
      elim (Bool-cases (node_key_is key e.instance_value)) [
        | inl hit ↦ rw (found, behind hit, valid, hit)
        | inr other ↦ rw (found, first_match-missing (node_key_is key) xs q e missing other, other)
      ]

  -- On a well-formed store that does not have the node, where `new` returns a free address, and the
  -- channel answers to both requests, to the second under its own id and with a number, `get_node`
  -- succeeds: it puts the node of the answer behind the others, with a use counter of one and its
  -- attribute for the CPU load, keeps everything else, and returns its address. The next
  -- lookup of the key finds this node where the answer is about the key that was asked for, and
  -- otherwise requests a node again.
  pub get_node-requested :
      (key : PrimaryKey) (ds : DataStore V) (a : View V) (answer : Answer V NodeResponse)
      (r : NodeResponse) (attribute : AttributeAnswer V) (v : V)
      → IsView rounds ds a
      → suc (length a.nodes) < rounds
      → first_match (node_key_is key) a.nodes ≡ null
      → ch.request_node ds.requests key ≡ answer
      → answer.response ≡ some r
      → answer.attribute ≡ some attribute
      → attribute.first ≡ numerical v
      → (attribute.sent_id == attribute.response_id) ≡ true
      → answer.address ≢ null
      → ds.nodes.heap answer.address ≡ none
      → (ds' : DataStore V) × (get_node ch rounds key ds ≡ ok (ds', answer.address))
        × IsView rounds ds' (record a {
          nodes =
              a.nodes
              ++ (answer.address, fresh_entry (requested_node r attribute v) answer.request_id)
                ∷ [];
        })
        × (get_node ch rounds key ds' ≡ (
            if str_eq r.primary_key key
            then ok (ds', answer.address)
            else request_node ch rounds key ds'))
  unfolding get_node request_node add_source add_attribute_source make_node
  get_node-requested key ds a answer r attribute v is few missing asked responded attributed number
        same new unused =
      let (l, appended, is₁, others) =
        emplace_back-append ds.nodes a.nodes answer.address (make_node r) answer.request_id
          is.nodes_are new unused in
      let (l', changed, is₂, nonnull) =
        modify_entry-IsList
          (λ d. do
            n ←
                add_source ch rounds (λ base. record d.instance_value { base = base }) attribute
                  d.instance_value.base
            ok (record d { instance_value = n }))
          l a.nodes [] answer.address (fresh_entry (make_node r) answer.request_id)
          (fresh_entry (requested_node r attribute v) answer.request_id) is₁ (rw (same, number)) in
      let ds' = record ds { nodes = l'; requests = suc (suc ds.requests) } in
      let view : IsView rounds ds' (record a {
        nodes =
            a.nodes
            ++ (answer.address, fresh_entry (requested_node r attribute v) answer.request_id) ∷ [];
      }) =
        record {
          nodes_are = is₂;
          topics_are = is.topics_are;
          updates_are = is.updates_are;
          few_nodes =
              rw
                (length-append a.nodes (
                  (answer.address, fresh_entry (requested_node r attribute v) answer.request_id)
                  ∷ []))
                (omega (arith, few));
          few_topics = is.few_topics;
        } in
      (
        ds',
        rw (
          find_from-first_match (node_key_is key) rounds ds.nodes a.nodes is.nodes_are is.few_nodes,
          missing,
          asked,
          responded,
          appended,
          attributed,
          changed,
        ),
        view,
        get_node-added key ds' a.nodes answer.address
            (fresh_entry (requested_node r attribute v) answer.request_id) view.nodes_are
            view.few_nodes nonnull
            (λ hit.
              first_match-behind (node_key_is key) ds.nodes.heap null null ds.nodes.first
                ds.nodes.last a.nodes answer.address
                (fresh_entry (requested_node r attribute v) answer.request_id) is.nodes_are.chain
                missing hit)
            missing,
      )
