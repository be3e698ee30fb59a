-- ===== src/DataStore/Dangling.antt =====
-- What becomes of an element of data-store.cpp when the destruction of a handle takes its use
-- counter to zero.
use stream_fdl.Prelude.{
  ℕ, ◌≡◌, refl, ◌∙◌, subst, inl, inr, Bool, false, Option, none, some, List, [], ◌∷◌, ◌++◌, arith,
  Bool-cases, ok,
}
use stream_fdl.AtomicCounter.{AtomicCounter, non_zero, decrease}
use stream_fdl.DoubleLinkedList.{Ptr, Entry}
use stream_fdl.DoubleLinkedList.Segment.{Cells, has, IsList}
use stream_fdl.Members.{Node, Topic, PrimaryKey}
use stream_fdl.GraphView.{GraphView}
use stream_fdl.DataStore.{DataStore, member_at, adjust_counter, node_key_is, get_node}
use stream_fdl.DataStore.Found.{get_node-found}
use stream_fdl.DoubleLinkedList.Search.{first_match}
use stream_fdl.DataStore.{Channel}
use stream_fdl.DataStore.Held.{
  count_by, IsList-once, IsList-heap, length-entry, has-in_use, has-unused,
}
use stream_fdl.DataStore.Messages.{Messages}
use stream_fdl.DataStore.Messages.Entries.{modify_entry-IsList, update_first}
use stream_fdl.DataStore.Messages.Round.{
  View, IsView, change_node, change_topic, optionally, apply_messages,
}
use stream_fdl.DataStore.Collect.{run_round}
use stream_fdl.DataStore.Collect.Round.{HasUsedEnds, used_view, run_round-apply_messages}

has-update_first :
    {T : Type 0} (test : T → Bool) (f : T → T) (p : Ptr) (xs : Cells T)
    → has p (update_first test f xs) ≡ has p xs
unfolding update_first
has-update_first test f p [] = refl
has-update_first test f p ((a, d) ∷ xs) = elim (Bool-cases (test d.instance_value)) [
  | inl hit ↦ rw hit
  | inr miss ↦ rw (miss, has-update_first test f p xs)
]

module _ {V : Type 0} where
  -- Neither view has an element at `p`.
  abbrev IsAbsent : Ptr → View V → Type 0
  IsAbsent p a = (has p a.nodes ≡ false) × (has p a.topics ≡ false)

  change_node-IsAbsent :
      (p : Ptr) (key : PrimaryKey) (f : Node V → Node V) (log : GraphView → GraphView) (a : View V)
      → IsAbsent p a
      → IsAbsent p (change_node key f log a)
  unfolding change_node
  change_node-IsAbsent p key f log a (n, t) = (has-update_first _ f p a.nodes ∙ n, t)

  change_topic-IsAbsent :
      (p : Ptr) (key : PrimaryKey) (f : Topic V → Topic V) (log : GraphView → GraphView)
      (a : View V)
      → IsAbsent p a
      → IsAbsent p (change_topic key f log a)
  unfolding change_topic
  change_topic-IsAbsent p key f log a (n, t) = (n, has-update_first _ f p a.topics ∙ t)

  optionally-IsAbsent :
      {M : Type 0} (p : Ptr) (f : M → View V → View V) (m : Option M) (a : View V)
      → ((x : M) (b : View V) → IsAbsent p b → IsAbsent p (f x b))
      → IsAbsent p a
      → IsAbsent p (optionally f m a)
  unfolding optionally
  optionally-IsAbsent p f none a keeps is = is
  optionally-IsAbsent p f (some x) a keeps is = keeps x a is

  -- A round of messages adds no element.
  apply_messages-IsAbsent :
      (p : Ptr) (m : Messages) (a : View V) → IsAbsent p a → IsAbsent p (apply_messages m a)
  unfolding apply_messages
  apply_messages-IsAbsent p m a is =
      optionally-IsAbsent p _ m.subscribers _ (λ (key, x, y) b. change_topic-IsAbsent p key _ _ b)
        (optionally-IsAbsent p _ m.publishers _ (λ (key, x, y) b. change_topic-IsAbsent p key _ _ b)
          (optionally-IsAbsent p _ m.state _ (λ (key, x, y) b. change_node-IsAbsent p key _ _ b)
            (optionally-IsAbsent p _ m.is_action_client_of _
              (λ (key, x, y) b. change_node-IsAbsent p key _ _ b)
              (optionally-IsAbsent p _ m.is_action_server_for _
                (λ (key, x, y) b. change_node-IsAbsent p key _ _ b)
                (optionally-IsAbsent p _ m.is_client_of _
                  (λ (key, x, y) b. change_node-IsAbsent p key _ _ b)
                  (optionally-IsAbsent p _ m.is_server_for _
                    (λ (key, x, y) b. change_node-IsAbsent p key _ _ b)
                    (optionally-IsAbsent p _ m.subscribers_to _
                      (λ (key, x) b. change_node-IsAbsent p key _ _ b)
                      (optionally-IsAbsent p _ m.publishers_to a
                        (λ (key, x) b. change_node-IsAbsent p key _ _ b) is))))))))

  -- A change of the counter of a node.
  pub adjust_counter-IsView :
      (f : AtomicCounter → AtomicCounter) (rounds : ℕ) (ds : DataStore V) (a : View V)
      (xs ys : Cells (Node V)) (p : Ptr) (d : Entry (Node V))
      → IsView rounds ds a
      → a.nodes ≡ xs ++ (p, d) ∷ ys
      → (ds' : DataStore V) × (adjust_counter f p ds ≡ ok ds')
        × IsView rounds ds' (record a { nodes = xs ++ (p, count_by f d) ∷ ys })
  unfolding adjust_counter
  adjust_counter-IsView f rounds ds a xs ys p d is split =
      let nodes_are : IsList ds.nodes (xs ++ (p, d) ∷ ys) =
        subst (IsList ds.nodes) split is.nodes_are in
      let (n, (e, there, same)) = IsList-heap ds.nodes xs ys p d nodes_are in
      let (l, done, is', nonnull) =
        modify_entry-IsList (λ d. ok (count_by f d)) ds.nodes xs ys p d (count_by f d) nodes_are
          refl in
      (
        record ds { nodes = l },
        rw (nonnull, there, done),
        record {
          nodes_are = is';
          topics_are = is.topics_are;
          updates_are = is.updates_are;
          few_nodes = rw (length-entry xs ys p d (count_by f d), ← split) is.few_nodes;
          few_topics = is.few_topics;
        },
      )

  -- On a well-formed store, a node whose one counted handle exists is looked up by its key, the
  -- handle that `get_node` returns is destroyed, and a round of `run` follows. The lookup leaves the
  -- store as it is and returns the node's address; where the first and last members are in use after
  -- the destruction, the round succeeds whatever its messages are, and frees the node, so that
  -- the first handle has nothing behind it.
  pub get_node-dangles :
      (ch : Channel V) (rounds : ℕ) (key : PrimaryKey) (m : Messages) (ds : DataStore V)
      (a : View V) (xs ys : Cells (Node V)) (p : Ptr) (d : Entry (Node V))
      → IsView rounds ds a
      → a.nodes ≡ xs ++ (p, d) ∷ ys
      → has p a.topics ≡ false
      → first_match (node_key_is key) a.nodes ≡ p
      → d.use_counter.value ≡ 1
      → HasUsedEnds (xs ++ (p, count_by decrease d) ∷ ys)
      → HasUsedEnds a.topics
      → (get_node ch rounds key ds ≡ ok (ds, p))
        × ((ds₁ : DataStore V) × (adjust_counter decrease p ds ≡ ok ds₁)
            × ((ds₂ : DataStore V) × (ids : List ℕ) × (run_round rounds m ds₁ ≡ ok (ds₂, ids))
                × (member_at ds₂ p ≡ none)))
  unfolding decrease non_zero
  get_node-dangles ch rounds key m ds a xs ys p d is split apart first one nodes_used topics_used =
      let nodes_are : IsList ds.nodes (xs ++ (p, d) ∷ ys) =
        subst (IsList ds.nodes) split is.nodes_are in
      let (front, back) = IsList-once ds.nodes xs ys p d nodes_are in
      let (n, there) = IsList-heap ds.nodes xs ys p d nodes_are in
      let found = get_node-found ch rounds key ds a is (rw first (ground arith)) in
      let (ds₁, released, is₁) = adjust_counter-IsView decrease rounds ds a xs ys p d is split in
      let (ds₂, ran, is₂) =
        run_round-apply_messages rounds m ds₁
          (record a { nodes = xs ++ (p, count_by decrease d) ∷ ys }) is₁ nodes_used topics_used in
      let gone : IsAbsent p (
          apply_messages m (used_view (record a { nodes = xs ++ (p, count_by decrease d) ∷ ys }))) =
        apply_messages-IsAbsent p m _ (
          has-unused xs ys p (count_by decrease d) front back (ground arith),
          has-in_use p a.topics apart,
        ) in
      (
        subst (λ q. get_node ch rounds key ds ≡ ok (ds, q)) first found,
        (
          ds₁,
          released,
          (
            ds₂,
            _,
            ran,
            ground (arith, is₂.nodes_are.closed p gone.0, is₂.topics_are.closed p gone.1),
          ),
        ),
      )
