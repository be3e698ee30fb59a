-- ===== src/DataStore/Lookup.antt =====
-- The handles that the lookups of data-store.cpp return.
use stream_fdl.Prelude.{ℕ, ◌≡◌, false, arith, ◌==◌, ok}
use stream_fdl.DoubleLinkedList.{null, emplace_back}
use stream_fdl.MemberPtr.{MemberPtr}
use stream_fdl.Members.{PrimaryKey, MemberProxy}
use stream_fdl.DataStore.{Channel, DataStore, request_node, request_topic, get_node, get_topic, get}

-- The addresses that `new` returns are not null.
abbrev pub NewIsValid : {V : Type 0} → Channel V → Type 0
NewIsValid ch =
    ((n : ℕ) (k : PrimaryKey) → ((ch.request_node n k).address == null) ≡ false)
    × ((n : ℕ) (k : PrimaryKey) → ((ch.request_topic n k).address == null) ≡ false)

module _ {V : Type 0} (ch : Channel V) (rounds : ℕ) (valid : NewIsValid ch) where
  request_node-ne_null :
      (k : PrimaryKey) (ds ds' : DataStore V) (p : MemberPtr)
      → request_node ch rounds k ds ≡ ok (ds', p)
      → (p == null) ≡ false
  unfolding request_node emplace_back
  request_node-ne_null k ds ds' p h = ground (arith, valid.0 ds.requests k)

  request_topic-ne_null :
      (k : PrimaryKey) (ds ds' : DataStore V) (p : MemberPtr)
      → request_topic ch rounds k ds ≡ ok (ds', p)
      → (p == null) ≡ false
  unfolding request_topic emplace_back
  request_topic-ne_null k ds ds' p h = ground (arith, valid.1 ds.requests k)

  get_node-ne_null :
      (k : PrimaryKey) (ds ds' : DataStore V) (p : MemberPtr)
      → get_node ch rounds k ds ≡ ok (ds', p)
      → (p == null) ≡ false
  unfolding get_node
  get_node-ne_null k ds ds' p h = ground (arith, request_node-ne_null k ds ds' p)

  get_topic-ne_null :
      (k : PrimaryKey) (ds ds' : DataStore V) (p : MemberPtr)
      → get_topic ch rounds k ds ≡ ok (ds', p)
      → (p == null) ≡ false
  unfolding get_topic
  get_topic-ne_null k ds ds' p h = ground (arith, request_topic-ne_null k ds ds' p)

  pub get-ne_null :
      (m : MemberProxy) (ds ds' : DataStore V) (p : MemberPtr)
      → get ch rounds m ds ≡ ok (ds', p)
      → (p == null) ≡ false
  unfolding get
  get-ne_null m ds ds' p h =
      ground
        (arith, get_node-ne_null m.primary_key ds ds' p, get_topic-ne_null m.primary_key ds ds' p)
