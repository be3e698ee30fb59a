-- ===== src/FaultDetection/Typed.antt =====
-- A read of the attributes of a member of fault-detection.cpp: the member keeps its class and the
-- names of its attributes, and what is read is its one attribute.
use stream_fdl.Prelude.{
  String, ◌≡◌, refl, ◌∙◌, inl, inr, Bool, true, false, Option, none, some, List, [], ◌∷◌, map,
  Option-cases,
}
use stream_fdl.Prelude.After.{Any, After, >>=-After}
use stream_fdl.Prelude.Double.{Double}
use stream_fdl.DoubleLinkedList.{load}
use stream_fdl.DoubleLinkedList.Every.{load-After}
use stream_fdl.Members.{Attribute, MemberBase}
use stream_fdl.Members.Attributes.{
  Response, numerical, other_type, AttributeMapping, refresh, get_attributes_loop, get_attributes,
}
use stream_fdl.DataStore.{Channel, modify_entry}
use stream_fdl.DataStore.Typed.{IsBase, IsNode, IsTopic, IsTyped, modify_entry-Every}
use stream_fdl.FaultDetection.Round.{member_attributes}
use stream_fdl.FaultDetection.Kept.{IsRefreshed}

module _ {V : Type 0} (received : String → Option (Response V)) where
  refresh-After :
      (found : Option (Response V)) (a : Attribute V)
      → After Any (λ a'. a'.name ≡ a.name) (refresh found a)
  unfolding refresh
  refresh-After none a = refl
  refresh-After (some (numerical v)) a = refl
  refresh-After (some other_type) a = tt

  get_attributes_loop-After :
      (as' : List (Attribute V)) (output : AttributeMapping V)
      → After Any
          (λ r. map (λ a. a.name) r.0 ≡ map (λ a. a.name) as')
          (get_attributes_loop received as' output)
  unfolding get_attributes_loop
  get_attributes_loop-After [] output = refl
  get_attributes_loop-After (a ∷ as') output =
      >>=-After Any _ (refresh (received a.shared_memory) a) _
        (refresh-After (received a.shared_memory) a)
        (λ a' same.
          >>=-After Any _ (get_attributes_loop received as' _) _ (get_attributes_loop-After as' _)
            (λ r rest. rw (same, rest) refl))

  get_attributes-After :
      (is_topic : Bool) (name : String) (b : MemberBase V)
      → IsBase is_topic name b
      → After Any (λ r. IsBase is_topic name r.0) (get_attributes received b)
  unfolding get_attributes
  get_attributes-After is_topic name b (flag, names) =
      >>=-After Any _ (get_attributes_loop received b.attributes []) _
        (get_attributes_loop-After b.attributes []) (λ r same. (flag, same ∙ names))

module _ (d : Double) (ch : Channel d.Value) where
  pub IsTyped-IsRefreshed : IsRefreshed d (IsTyped ch)
  unfolding member_attributes
  IsTyped-IsRefreshed received p ds typed = elim (Option-cases (ds.nodes.heap p)) [
    | inr (e, at) ↦
        rw (member_attributes, at)
          (>>=-After Any _ (get_attributes received e.entry.instance_value.base) _
            (get_attributes-After received false ch.cpu_utilisation e.entry.instance_value.base
              (typed.nodes_are p e at))
            (λ r is.
              >>=-After Any _ (modify_entry _ ds.nodes p) _
                (modify_entry-Every (λ a n. IsNode ch.cpu_utilisation n) _ ds.nodes p
                  (λ a e' _ at'. typed.nodes_are a e' at') (λ e' at'. is))
                (λ l nodes_are. record { nodes_are = nodes_are; topics_are = typed.topics_are })))
    | inl missing ↦
        rw (member_attributes, missing)
          (>>=-After Any _ (load ds.topics.heap p) _ (load-After ds.topics.heap p) (λ e found.
            >>=-After Any _ (get_attributes received e.entry.instance_value.base) _
              (get_attributes-After received true ch.cpu_utilisation e.entry.instance_value.base
                (typed.topics_are p e found.1))
              (λ r is.
                >>=-After Any _ (modify_entry _ ds.topics p) _
                  (modify_entry-Every (λ a t. IsTopic ch.cpu_utilisation t) _ ds.topics p
                    (λ a e' _ at'. typed.topics_are a e' at') (λ e' at'. is))
                  (λ l topics_are. record {
                    nodes_are = typed.nodes_are;
                    topics_are = topics_are;
                  }))))
  ]
