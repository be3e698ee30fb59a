-- ===== src/DataStore/Typed/Requests.antt =====
-- The requests of data-store.cpp bring in nodes and topics of their class, with their attribute.
use stream_fdl.Prelude.{
  ℕ, String, ◌≡◌, refl, sym, ap, ◌∙◌, Bool, true, false, [], arith, ◌==◌, ==-refl, Outcome, ok,
  ◌>>=◌,
}
use stream_fdl.Prelude.After.{Any, After, After-map, >>=-After, Outcome-After}
use stream_fdl.DoubleLinkedList.{Ptr, Entry, DoubleLinkedList, emplace_back}
use stream_fdl.DoubleLinkedList.Every.{Every, emplace_back-Every}
use stream_fdl.Members.{PrimaryKey, MemberBase, Node, Topic, make_node, make_topic}
use stream_fdl.Members.Attributes.{Response, numerical, other_type, add_attribute_source}
use stream_fdl.DataStore.{
  AttributeAnswer, Channel, DataStore, value_of, require, modify_entry, add_source, request_node,
  request_topic,
}
use stream_fdl.DataStore.Kept.{IsKept}
use stream_fdl.DataStore.Typed.{names_of, IsBase, IsTyped, modify_entry-Every, adjust_counter-After}

module _ {V : Type 0} (ch : Channel V) where
  source-After :
      (first : Response V) (address : String) (id : ℕ) (base : MemberBase V)
      → base.attributes ≡ []
      → After Any
          (IsBase base.is_topic ch.cpu_utilisation)
          (add_attribute_source first ch.cpu_utilisation address id base)
  unfolding add_attribute_source
  source-After (numerical v) address id base none' = (refl, rw none' refl)
  source-After other_type address id base none' = tt

  module _ (rounds : ℕ) where
    -- An attribute that is added to a member without any.
    add_source-After :
        {T : Type 0} (P : T → Type 0) (rebuild : MemberBase V → T) (a : AttributeAnswer V)
        (base : MemberBase V)
        → base.attributes ≡ []
        → ((b : MemberBase V) → IsBase base.is_topic ch.cpu_utilisation b → P (rebuild b))
        → After Any P (add_source ch rounds rebuild a base)
    unfolding add_source
    add_source-After P rebuild a base none' good =
        >>=-After Any P (require (a.sent_id == a.response_id)) _ (Outcome-After _) (λ _ _.
          >>=-After Any P
            (add_attribute_source a.first ch.cpu_utilisation a.memory_address a.response_id base) _
            (source-After a.first a.memory_address a.response_id base none')
            (λ b typed. good b typed))

    -- The two steps of a request, on the list of either class: an instance without attributes is put
    -- behind the others, and then gets its attribute.
    module _ {T : Type 0} (base_in : T → MemberBase V) (rebuild : T → MemberBase V → T)
        (reads : (t : T) (b : MemberBase V) → base_in (rebuild t b) ≡ b) (is_topic : Bool) where
      -- The instance at one address, and complete members elsewhere.
      abbrev IsPlaced : Ptr → T → Ptr → T → Type 0
      IsPlaced fresh new a t =
          ((a == fresh) ≡ true → t ≡ new)
          × ((a == fresh) ≡ false → IsBase is_topic ch.cpu_utilisation (base_in t))

      abbrev completed : AttributeAnswer V → Entry T → Outcome (Entry T)
      completed attribute d = do
        t ← add_source ch rounds (rebuild d.instance_value) attribute (base_in d.instance_value)
        ok (record d { instance_value = t })

      completed-After :
          (new : T) (attribute : AttributeAnswer V) (d : Entry T)
          → (base_in new).is_topic ≡ is_topic
          → (base_in new).attributes ≡ []
          → d.instance_value ≡ new
          → After Any
              (λ d'. IsBase is_topic ch.cpu_utilisation (base_in d'.instance_value))
              (completed attribute d)
      completed-After new attribute d flag none' same =
          >>=-After Any _
            (add_source ch rounds (rebuild d.instance_value) attribute (base_in d.instance_value)) _
            (add_source-After (λ t. IsBase is_topic ch.cpu_utilisation (base_in t))
              (rebuild d.instance_value) attribute (base_in d.instance_value)
              (ap (λ t. (base_in t).attributes) same ∙ none')
              (λ b typed. (
                ap MemberBase.is_topic (reads d.instance_value b)
                    ∙ typed.0
                    ∙ ap (λ t. (base_in t).is_topic) same
                    ∙ flag,
                ap names_of (reads d.instance_value b) ∙ typed.1,
              )))
            (λ t typed. typed)

      placed-After :
          (l : DoubleLinkedList T) (fresh : Ptr) (new : T) (request_id : ℕ)
          → (base_in new).is_topic ≡ is_topic
          → (base_in new).attributes ≡ []
          → Every (λ a t. IsBase is_topic ch.cpu_utilisation (base_in t)) l.heap
          → After Any
              (λ placed.
                (attribute : AttributeAnswer V)
                → After Any
                    (λ l'. Every (λ a t. IsBase is_topic ch.cpu_utilisation (base_in t)) l'.heap)
                    (modify_entry (completed attribute) placed.0 placed.1))
              (emplace_back l fresh new request_id)
      placed-After l fresh new request_id flag none' every =
          let at_fresh : IsPlaced fresh new fresh new =
            (λ _. refl, λ differs. absurd (ground (arith, ==-refl fresh))) in
          After-map Any _ _ (emplace_back l fresh new request_id)
            (emplace_back-Every (IsPlaced fresh new) l fresh new request_id
              (λ a e other at. (λ same. absurd (ground arith), λ _. every a e at)) at_fresh)
            (λ placed is attribute.
              modify_entry-Every (λ a t. IsBase is_topic ch.cpu_utilisation (base_in t))
                (completed attribute) placed.0 placed.1
                (λ a e other at. (is.1 a e at).1 (rw (sym is.0) other))
                (λ e at.
                  completed-After new attribute e.entry flag none'
                    ((is.1 placed.1 e at).0 (rw is.0 (==-refl fresh)))))

    request_node-After :
        (k : PrimaryKey) (ds : DataStore V)
        → IsTyped ch ds
        → After Any (λ r. IsTyped ch r.0) (request_node ch rounds k ds)
    unfolding request_node make_node
    request_node-After k ds typed =
        let answer = ch.request_node ds.requests k in
        >>=-After Any _ (value_of answer.response) _ (Outcome-After _) (λ response _.
          >>=-After Any _
            (emplace_back ds.nodes answer.address (make_node response) answer.request_id) _
            (placed-After Node.base (λ n b. record n { base = b }) (λ n b. refl) false ds.nodes
              answer.address (make_node response) answer.request_id refl refl typed.nodes_are)
            (λ placed done.
              >>=-After Any _ (value_of answer.attribute) _ (Outcome-After _) (λ attribute _.
                >>=-After Any _ (modify_entry _ placed.0 placed.1) _ (done attribute)
                  (λ l nodes_are. record {
                    nodes_are = nodes_are;
                    topics_are = typed.topics_are;
                  }))))

    request_topic-After :
        (k : PrimaryKey) (ds : DataStore V)
        → IsTyped ch ds
        → After Any (λ r. IsTyped ch r.0) (request_topic ch rounds k ds)
    unfolding request_topic make_topic
    request_topic-After k ds typed =
        let answer = ch.request_topic ds.requests k in
        >>=-After Any _ (value_of answer.response) _ (Outcome-After _) (λ response _.
          >>=-After Any _
            (emplace_back ds.topics answer.address (make_topic response) answer.request_id) _
            (placed-After Topic.base (λ t b. record t { base = b }) (λ t b. refl) true ds.topics
              answer.address (make_topic response) answer.request_id refl refl typed.topics_are)
            (λ placed done.
              >>=-After Any _ (value_of answer.attribute) _ (Outcome-After _) (λ attribute _.
                >>=-After Any _ (modify_entry _ placed.0 placed.1) _ (done attribute)
                  (λ l topics_are. record {
                    nodes_are = typed.nodes_are;
                    topics_are = topics_are;
                  }))))

    pub IsTyped-IsKept : IsKept ch rounds (IsTyped ch)
    IsTyped-IsKept = record {
      counting = adjust_counter-After ch;
      node_requested = request_node-After;
      topic_requested = request_topic-After;
      asked = λ ds typed. record { nodes_are = typed.nodes_are; topics_are = typed.topics_are };
      taken =
          λ ds pending typed. record { nodes_are = typed.nodes_are; topics_are = typed.topics_are };
    }
