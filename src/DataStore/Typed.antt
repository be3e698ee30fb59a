-- ===== src/DataStore/Typed.antt =====
-- The class and the attributes of the members in the store of data-store.cpp: the list of nodes holds
-- nodes, the list of topics topics, and each member has the one attribute that is requested with it.
pub mod Requests
pub mod Rounds
use stream_fdl.Prelude.{
  ◌-◌, String, ◌≡◌, ap, subst, inl, inr, Bool, true, false, none, some, List, [], ◌∷◌, map, ◌==◌,
  Option-cases, Outcome, ◌>>=◌, ◌>>◌,
}
use stream_fdl.Prelude.After.{Any, After, After-map, >>=-After, if-After, Outcome-After}
use stream_fdl.AtomicCounter.{AtomicCounter}
use stream_fdl.DoubleLinkedList.{
  Ptr, null, Entry, Element, DoubleLinkedList, write, load, emplace_back, find_from,
}
use stream_fdl.DoubleLinkedList.Every.{Every, write-Every, load-After, emplace_back-Every}
use stream_fdl.GraphView.{GraphView}
use stream_fdl.Members.{
  PrimaryKey, Attribute, MemberBase, Node, Topic, Member, node, topic, base_of, make_node,
  make_topic, NodeResponse, TopicResponse,
}
use stream_fdl.Members.Attributes.{Response, numerical, other_type, add_attribute_source}
use stream_fdl.MemberPtr.{MemberPtr}
use stream_fdl.DataStore.{
  AttributeAnswer, Channel, DataStore, value_of, require, modify_entry, member_at, adjust_counter,
  add_source, request_node, request_topic,
}
use stream_fdl.DataStore.Kept.{IsKept}

pub modify_entry-Every :
    {T : Type 0} (P : Ptr → T → Type 0) (f : Entry T → Outcome (Entry T)) (l : DoubleLinkedList T)
    (p : Ptr)
    → ((a : Ptr) (e : Element T)
        → (a == p) ≡ false
        → l.heap a ≡ some e
        → P a e.entry.instance_value)
    → ((e : Element T) → l.heap p ≡ some e → After Any (λ d. P p d.instance_value) (f e.entry))
    → After Any (λ l'. Every P l'.heap) (modify_entry f l p)
unfolding modify_entry
modify_entry-Every P f l p others this =
    >>=-After Any _ (load l.heap p) _ (load-After l.heap p) (λ e found.
      >>=-After Any _ (f e.entry) _ (this e found.1) (λ d good.
        write-Every P l.heap p (some (record e { entry = d })) others (λ e' same.
          subst (P p)
            (ap (λ o. elim o [ none ↦ d.instance_value | some x ↦ x.entry.instance_value ]) same)
            good)))

module _ {V : Type 0} where
  abbrev pub names_of : MemberBase V → List String
  names_of b = map (λ a. a.name) b.attributes

  -- The flag is that of the class, and there is one attribute, of the name.
  abbrev pub IsBase : (is_topic : Bool) → String → MemberBase V → Type 0
  IsBase is_topic name b = (b.is_topic ≡ is_topic) × (names_of b ≡ name ∷ [])

  abbrev pub IsNode : String → Node V → Type 0
  IsNode name n = IsBase false name n.base

  abbrev pub IsTopic : String → Topic V → Type 0
  IsTopic name t = IsBase true name t.base

module _ {V : Type 0} (ch : Channel V) where
  -- What the two lists hold.
  pub record IsTyped (ds : DataStore V) : Type 0 where
    pub nodes_are : Every (λ a n. IsNode ch.cpu_utilisation n) ds.nodes.heap
    pub topics_are : Every (λ a t. IsTopic ch.cpu_utilisation t) ds.topics.heap

  pub adjust_counter-After :
      (f : AtomicCounter → AtomicCounter) (p : MemberPtr) (ds : DataStore V)
      → IsTyped ds
      → After Any IsTyped (adjust_counter f p ds)
  unfolding adjust_counter
  adjust_counter-After f p ds typed =
      if-After Any IsTyped (p == null) _ _ typed (elim (Option-cases (ds.nodes.heap p)) [
        | inr (e, at) ↦ rw at (
            >>=-After Any IsTyped (modify_entry _ ds.nodes p) _
              (modify_entry-Every (λ a n. IsNode ch.cpu_utilisation n) _ ds.nodes p
                (λ a e' _ at'. typed.nodes_are a e' at') (λ e' at'. typed.nodes_are p e' at'))
              (λ l nodes_are. record { nodes_are = nodes_are; topics_are = typed.topics_are }))
        | inl missing ↦ rw missing (
            >>=-After Any IsTyped (modify_entry _ ds.topics p) _
              (modify_entry-Every (λ a t. IsTopic ch.cpu_utilisation t) _ ds.topics p
                (λ a e' _ at'. typed.topics_are a e' at') (λ e' at'. typed.topics_are p e' at'))
              (λ l topics_are. record { nodes_are = typed.nodes_are; topics_are = topics_are }))
      ])
