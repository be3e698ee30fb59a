-- ===== src/DataStore/Casts.antt =====
-- `asNode` and `asTopic` of members.cpp, on the members in the store.
use stream_fdl.Prelude.{
  ◌>>◌, ◌≡◌, inl, inr, true, false, not, none, some, arith, Option-cases, dangling, assertion,
  Outcome, ok, fault, ◌>>=◌,
}
use stream_fdl.MemberPtr.{MemberPtr}
use stream_fdl.Members.{Node, Topic, Member, node, topic, base_of}
use stream_fdl.DataStore.{Channel, DataStore, member_at, require}
use stream_fdl.DataStore.Typed.{IsTyped}

module _ {V : Type 0} where
  -- `asNode`: an assertion, and a cast that is undefined on the other class.
  unfoldable pub as_node : DataStore V → MemberPtr → Outcome (Node V)
  as_node ds p = do
    m ← (elim (member_at ds p) [ none ↦ fault dangling | some m ↦ ok m ])
    require (not (base_of m).is_topic)
    elim m [ node n ↦ ok n | topic t ↦ fault dangling ]

  -- `asTopic`.
  unfoldable pub as_topic : DataStore V → MemberPtr → Outcome (Topic V)
  as_topic ds p = do
    m ← (elim (member_at ds p) [ none ↦ fault dangling | some m ↦ ok m ])
    require (base_of m).is_topic
    elim m [ node n ↦ fault dangling | topic t ↦ ok t ]

  -- The flag of the member is that of its class, and of the two casts, the one that the flag asks for
  -- gives the member, and the other fails its assertion.
  abbrev pub IsCast : DataStore V → MemberPtr → Member V → Type 0
  IsCast ds p (node n) =
      (n.base.is_topic ≡ false) × (as_node ds p ≡ ok n) × (as_topic ds p ≡ fault assertion)
  IsCast ds p (topic t) =
      (t.base.is_topic ≡ true) × (as_topic ds p ≡ ok t) × (as_node ds p ≡ fault assertion)

  node-IsCast :
      (ds : DataStore V) (p : MemberPtr) (n : Node V)
      → member_at ds p ≡ some (node n)
      → n.base.is_topic ≡ false
      → IsCast ds p (node n)
  unfolding as_node as_topic
  node-IsCast ds p n at flag = (flag, rw (at, flag), rw (at, flag))

  topic-IsCast :
      (ds : DataStore V) (p : MemberPtr) (t : Topic V)
      → member_at ds p ≡ some (topic t)
      → t.base.is_topic ≡ true
      → IsCast ds p (topic t)
  unfolding as_node as_topic
  topic-IsCast ds p t at flag = (flag, rw (at, flag), rw (at, flag))

  node-class :
      (ch : Channel V) (ds : DataStore V) (p : MemberPtr) (n : Node V)
      → IsTyped ch ds
      → member_at ds p ≡ some (node n)
      → n.base.is_topic ≡ false
  node-class ch ds p n typed at = elim (Option-cases (ds.nodes.heap p)) [
    | inl missing ↦ absurd (elim (Option-cases (ds.topics.heap p)) [
      | inl missing' ↦ ground arith
      | inr (e, there) ↦ ground arith
    ])
    | inr (e, there) ↦ ground (arith, (typed.nodes_are p e there).0)
  ]

  topic-class :
      (ch : Channel V) (ds : DataStore V) (p : MemberPtr) (t : Topic V)
      → IsTyped ch ds
      → member_at ds p ≡ some (topic t)
      → t.base.is_topic ≡ true
  topic-class ch ds p t typed at = elim (Option-cases (ds.nodes.heap p)) [
    | inl missing ↦ elim (Option-cases (ds.topics.heap p)) [
      | inl missing' ↦ absurd (ground arith)
      | inr (e, there) ↦ ground (arith, (typed.topics_are p e there).0)
    ]
    | inr (e, there) ↦ absurd (ground arith)
  ]

  pub IsTyped-IsCast :
      (ch : Channel V) (ds : DataStore V) (p : MemberPtr) (m : Member V)
      → IsTyped ch ds
      → member_at ds p ≡ some m
      → IsCast ds p m
  IsTyped-IsCast ch ds p (node n) typed at = node-IsCast ds p n at (node-class ch ds p n typed at)
  IsTyped-IsCast ch ds p (topic t) typed at =
      topic-IsCast ds p t at (topic-class ch ds p t typed at)
