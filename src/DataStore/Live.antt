-- ===== src/DataStore/Live.antt =====
-- A change of a use counter behind a handle of data-store.cpp: it succeeds on an element that
-- exists, and changes no member.
use stream_fdl.Prelude.{
  none, ◌≡◌, ◌∙◌, ◌≢◌, inl, inr, false, some, arith, ◌==◌, Bool-cases, Option-cases, ok,
}
use stream_fdl.AtomicCounter.{AtomicCounter, counter}
use stream_fdl.DoubleLinkedList.{null, Element, write}
use stream_fdl.DoubleLinkedList.Segment.{load-some}
use stream_fdl.MemberPtr.{MemberPtr, Counters, change}
use stream_fdl.Members.{Member}
use stream_fdl.DataStore.{DataStore, modify_entry, member_at, adjust_counter}

-- The element with a changed counter.
abbrev recount : {T : Type 0} → (AtomicCounter → AtomicCounter) → Element T → Element T
recount f e = record e { entry = record e.entry { use_counter = f e.entry.use_counter } }

ne_null : (p : MemberPtr) → (p == null) ≡ false → p ≢ null
ne_null p valid = ground arith

module _ {V : Type 0} where
  -- The handle points at a member.
  abbrev pub IsLive : DataStore V → MemberPtr → Type 0
  IsLive ds p = (m : Member V) × (member_at ds p ≡ some m)

  -- The same member stands behind each handle.
  abbrev pub HasSameMembers : DataStore V → DataStore V → Type 0
  HasSameMembers ds ds' = (q : MemberPtr) → member_at ds' q ≡ member_at ds q

  pub IsLive-same :
      (ds ds' : DataStore V) (p : MemberPtr) → HasSameMembers ds ds' → IsLive ds p → IsLive ds' p
  IsLive-same ds ds' p same (m, at) = (m, same p ∙ at)

  -- The counter behind each handle.
  abbrev pub counters_of : DataStore V → Counters
  counters_of ds q = elim (ds.nodes.heap q) [
    | some e ↦ e.entry.use_counter
    | none ↦ elim (ds.topics.heap q) [ some e ↦ e.entry.use_counter | none ↦ counter 0 ]
  ]

  pub adjust_counter-change :
      (f : AtomicCounter → AtomicCounter) (p : MemberPtr) (ds : DataStore V)
      → IsLive ds p
      → (ds' : DataStore V) × (adjust_counter f p ds ≡ ok ds')
        × HasSameMembers ds ds'
        × ((q : MemberPtr) → counters_of ds' q ≡ change (counters_of ds) p f q)
        × ((p == null) ≡ false)
  unfolding adjust_counter modify_entry write
  adjust_counter-change f p ds (m, at) = elim (Bool-cases (p == null)) [
    | inl empty ↦ absurd (ground arith)
    | inr valid ↦ elim (Option-cases (ds.nodes.heap p)) [
      | inl missing ↦ elim (Option-cases (ds.topics.heap p)) [
        | inl missing' ↦ absurd (ground arith)
        | inr (e, there) ↦ (
          record ds {
            topics = record ds.topics { heap = write ds.topics.heap p (some (recount f e)) };
          },
          rw (valid, missing, load-some ds.topics.heap p e (ne_null p valid) there),
          λ q. ground arith,
          λ q. ground arith,
          valid,
        )
      ]
      | inr (e, there) ↦ (
        record ds { nodes = record ds.nodes { heap = write ds.nodes.heap p (some (recount f e)) } },
        rw (valid, there, load-some ds.nodes.heap p e (ne_null p valid) there),
        λ q. ground arith,
        λ q. ground arith,
        valid,
      )
    ]
  ]

  pub adjust_counter-HasSameMembers :
      (f : AtomicCounter → AtomicCounter) (p : MemberPtr) (ds : DataStore V)
      → IsLive ds p
      → (ds' : DataStore V) × (adjust_counter f p ds ≡ ok ds') × HasSameMembers ds ds'
  adjust_counter-HasSameMembers f p ds live =
      let (ds', done, same, changed, valid) = adjust_counter-change f p ds live in (ds', done, same)
