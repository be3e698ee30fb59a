-- ===== src/FaultDetection/Ready/Attributes.antt =====
-- The read of a member's attributes in fault-detection.cpp, where the channels deliver numbers.
use stream_fdl.Prelude.{
  String, ◌≡◌, refl, ap, ◌∙◌, sym, ◌≢◌, inl, inr, false, Option, none, some, List, [], ◌∷◌, map,
  arith, ◌==◌, Bool-cases, Option-cases,
}
use stream_fdl.Prelude.After.{After, After-and, After-map, >>=-After}
use stream_fdl.Prelude.Double.{Double}
use stream_fdl.StdMap
use stream_fdl.StdMap.{str_less}
use stream_fdl.DoubleLinkedList.{null, Element, write}
use stream_fdl.DoubleLinkedList.Segment.{load-some}
use stream_fdl.MemberPtr.{MemberPtr}
use stream_fdl.Members.{Attribute, MemberBase, Node, Topic, node, topic}
use stream_fdl.Members.Attributes.{
  Response, numerical, other_type, AttributeMapping, refresh, get_attributes_loop, get_attributes,
}
use stream_fdl.DataStore.{member_at, Channel, DataStore, modify_entry}
use stream_fdl.DataStore.Live.{IsLive}
use stream_fdl.DataStore.Typed.{names_of, IsTyped}
use stream_fdl.FaultDetection.Round.{member_attributes}
use stream_fdl.FaultDetection.Typed.{IsTyped-IsRefreshed}
use stream_fdl.FaultDetection.Ready.{Goes, before_of, outline, HasSameOutlines}

-- Every read of a channel that finds anything finds a number.
abbrev pub AreNumerical : {V : Type 0} → (String → Option (Response V)) → Type 0
AreNumerical received =
    (name : String) → (found : _) → received name ≡ some found → found ≢ other_type

module _ {V : Type 0} (received : String → Option (Response V))
    (numbers : AreNumerical received) where
  refresh-number :
      (found : Option (Response V)) (a : Attribute V)
      → ((r : Response V) → found ≡ some r → r ≢ other_type)
      → After ⊥ (λ a'. a'.name ≡ a.name) (refresh found a)
  unfolding refresh
  refresh-number none a number = refl
  refresh-number (some (numerical v)) a number = refl
  refresh-number (some other_type) a number = absurd (number other_type refl refl)

  get_attributes_loop-number :
      (name : String) (as' : List (Attribute V))
      → map (λ a. a.name) as' ≡ name ∷ []
      → After ⊥ (λ r. (v : V) × (r.1 ≡ (name, v) ∷ [])) (get_attributes_loop received as' [])
  unfolding get_attributes_loop
  get_attributes_loop-number name [] names = absurd cc
  get_attributes_loop-number name (a ∷ []) names =
      >>=-After ⊥ _ (refresh (received a.shared_memory) a) _
        (refresh-number (received a.shared_memory) a (numbers a.shared_memory))
        (λ a' same. (
          a'.last_value,
          ap (λ o. o.0) (StdMap.emplace-empty str_less a'.name a'.last_value)
              ∙ ap (λ k. (k, a'.last_value) ∷ []) (same ∙ cc),
        ))
  get_attributes_loop-number name (a ∷ a' ∷ as') names = absurd cc

  get_attributes-number :
      (name : String) (b : MemberBase V)
      → names_of b ≡ name ∷ []
      → After ⊥
          (λ r. ((v : V) × (r.1 ≡ (name, v) ∷ [])) × (r.0.primary_key ≡ b.primary_key))
          (get_attributes received b)
  unfolding get_attributes
  get_attributes-number name b names =
      >>=-After ⊥ _ (get_attributes_loop received b.attributes []) _
        (get_attributes_loop-number name b.attributes names) (λ r number. (number, refl))

module _ (d : Double) (ch : Channel d.Value) (received : String → Option (Response d.Value))
    (numbers : AreNumerical received) where
  -- The lists with the element behind a handle changed.
  written-nodes :
      (p : MemberPtr) (ds : DataStore d.Value) (e e' : Element (Node d.Value))
      → ds.nodes.heap p ≡ some e
      → (q : MemberPtr) → IsLive ds q
      → IsLive (record ds { nodes = record ds.nodes { heap = write ds.nodes.heap p (some e') } }) q
  unfolding write
  written-nodes p ds e e' at q (m, found) = elim (Bool-cases (q == p)) [
    | inl same ↦ (node e'.entry.instance_value, ground arith)
    | inr other ↦ (m, ground arith)
  ]

  written-topics :
      (p : MemberPtr) (ds : DataStore d.Value) (e e' : Element (Topic d.Value))
      → ds.nodes.heap p ≡ none
      → ds.topics.heap p ≡ some e
      → (q : MemberPtr) → IsLive ds q
      → IsLive
          (record ds { topics = record ds.topics { heap = write ds.topics.heap p (some e') } })
          q
  unfolding write
  written-topics p ds e e' missing at q (m, found) = elim (Bool-cases (q == p)) [
    | inl same ↦ (topic e'.entry.instance_value, ground arith)
    | inr other ↦ (m, ground arith)
  ]

  outlined-nodes :
      (p : MemberPtr) (ds : DataStore d.Value) (e e' : Element (Node d.Value))
      → ds.nodes.heap p ≡ some e
      → outline (some (node e'.entry.instance_value)) ≡ outline (some (node e.entry.instance_value))
      → HasSameOutlines ds
          (record ds { nodes = record ds.nodes { heap = write ds.nodes.heap p (some e') } })
  unfolding write
  outlined-nodes p ds e e' at same q = elim (Bool-cases (q == p)) [
    | inl i ↦ elim (Bool-cases (q == null)) [
      | inl empty ↦ ap outline (ground arith)
      | inr valid ↦
          let before : member_at ds q ≡ some (node e.entry.instance_value) = ground arith in
          let after : member_at
                (record ds { nodes = record ds.nodes { heap = write ds.nodes.heap p (some e') } }) q
              ≡ some (node e'.entry.instance_value) =
            ground arith in
          ap outline after ∙ same ∙ ap outline (sym before)
    ]
    | inr other ↦ ap outline (ground arith)
  ]

  outlined-topics :
      (p : MemberPtr) (ds : DataStore d.Value) (e e' : Element (Topic d.Value))
      → ds.nodes.heap p ≡ none
      → ds.topics.heap p ≡ some e
      → outline (some (topic e'.entry.instance_value))
        ≡ outline (some (topic e.entry.instance_value))
      → HasSameOutlines ds
          (record ds { topics = record ds.topics { heap = write ds.topics.heap p (some e') } })
  unfolding write
  outlined-topics p ds e e' missing at same q = elim (Bool-cases (q == p)) [
    | inl i ↦ elim (Bool-cases (q == null)) [
      | inl empty ↦ ap outline (ground arith)
      | inr valid ↦
          let before : member_at ds q ≡ some (topic e.entry.instance_value) = ground arith in
          let after : member_at
                (record ds {
                  topics = record ds.topics { heap = write ds.topics.heap p (some e') };
                })
                q
              ≡ some (topic e'.entry.instance_value) =
            ground arith in
          ap outline after ∙ same ∙ ap outline (sym before)
    ]
    | inr other ↦ ap outline (ground arith)
  ]

  valid_handle : (p : MemberPtr) (ds : DataStore d.Value) → IsLive ds p → (p == null) ≡ false
  valid_handle p ds (m, at) = ground arith

  abbrev Lives : DataStore d.Value → DataStore d.Value × AttributeMapping d.Value → Type 0
  Lives ds r =
      ((q : MemberPtr) → IsLive ds q → IsLive r.0 q)
      × HasSameOutlines ds r.0
      × ((v : d.Value) × (r.1 ≡ (ch.cpu_utilisation, v) ∷ []))

  ne_of_valid : (p : MemberPtr) → (p == null) ≡ false → p ≢ null
  ne_of_valid p valid = ground arith

  attributes-Lives :
      (p : MemberPtr) (ds : DataStore d.Value)
      → IsTyped ch ds
      → IsLive ds p
      → After ⊥ (Lives ds) (member_attributes d received p ds)
  unfolding modify_entry member_attributes
  attributes-Lives p ds typed live = elim (Option-cases (ds.nodes.heap p)) [
    | inr (e, at) ↦
        rw
          (
            member_attributes,
            at,
            load-some ds.nodes.heap p e (ne_of_valid p (valid_handle p ds live)) at,
          )
          (>>=-After ⊥ _ (get_attributes received e.entry.instance_value.base) _
            (get_attributes-number received numbers ch.cpu_utilisation e.entry.instance_value.base
              (typed.nodes_are p e at).1)
            (λ r (number, key). (
              written-nodes p ds e _ at,
              outlined-nodes p ds e _ at
                  (ap (λ k. some (k, before_of (node e.entry.instance_value))) key),
              number,
            )))
    | inl missing ↦ elim (Option-cases (ds.topics.heap p)) [
      | inl missing' ↦ absurd (ground arith)
      | inr (e, at) ↦
          rw
            (
              member_attributes,
              missing,
              load-some ds.topics.heap p e (ne_of_valid p (valid_handle p ds live)) at,
            )
            (>>=-After ⊥ _ (get_attributes received e.entry.instance_value.base) _
              (get_attributes-number received numbers ch.cpu_utilisation e.entry.instance_value.base
                (typed.topics_are p e at).1)
              (λ r (number, key). (
                written-topics p ds e _ missing at,
                outlined-topics p ds e _ missing at
                    (ap (λ k. some (k, before_of (topic e.entry.instance_value))) key),
                number,
              )))
    ]
  ]

  -- The read of a member's attributes returns, with the value of its one attribute.
  pub member_attributes-Goes :
      (p : MemberPtr) (ds : DataStore d.Value)
      → IsTyped ch ds
      → IsLive ds p
      → After ⊥
          (λ r. Goes ch ds r.0 × ((v : d.Value) × (r.1 ≡ (ch.cpu_utilisation, v) ∷ [])))
          (member_attributes d received p ds)
  member_attributes-Goes p ds typed live =
      After-map ⊥ (λ r. IsTyped ch r.0 × Lives ds r) _ (member_attributes d received p ds)
        (After-and ⊥ (λ r. IsTyped ch r.0) (Lives ds) (member_attributes d received p ds)
          (IsTyped-IsRefreshed d ch received p ds typed) (attributes-Lives p ds typed live))
        (λ r (typed, (lives, same, number)). ((typed, lives, same), number))
