-- ===== src/Members/Attributes.antt =====
-- `Member::getAttributes` and `addAttributeSource` of member-base.cpp. What the shared memory
-- channel delivers is an argument: `received name` is what a non-blocking read finds, if anything.
use stream_fdl.Prelude.{
  ℕ, String, Option, none, some, List, [], ◌∷◌, ◌++◌, assertion, Outcome, ok, fault, ◌>>=◌,
}
use stream_fdl.StdMap
use stream_fdl.StdMap.{str_less}
use stream_fdl.Members.{Attribute, MemberBase}

-- `sharedMem::Response`, as far as the type that the assertions test.
pub data Response (V : Type 0) : Type 0 where
  numerical : V → Response V
  other_type : Response V

abbrev pub AttributeMapping : Type 0 → Type 0
AttributeMapping V = List (String × V)

module _ {V : Type 0} where
  -- One round of the loop: the attribute's last value after the read.
  unfoldable pub refresh : Option (Response V) → Attribute V → Outcome (Attribute V)
  refresh none a = ok a
  refresh (some (numerical v)) a = ok (record a { last_value = v })
  refresh (some other_type) a = fault assertion

  unfoldable pub get_attributes_loop :
      (received : String → Option (Response V))
      → List (Attribute V)
      → AttributeMapping V
      → Outcome (List (Attribute V) × AttributeMapping V)
  get_attributes_loop received [] output = ok ([], output)
  get_attributes_loop received (a ∷ as') output = do
    a' ← refresh (received a.shared_memory) a
    let output' = (StdMap.emplace str_less a'.name a'.last_value output).0
    (rest, result) ← get_attributes_loop received as' output'
    ok (a' ∷ rest, result)

  -- `getAttributes`: the member with its last values refreshed, and the mapping.
  unfoldable pub get_attributes :
      (received : String → Option (Response V))
      → MemberBase V
      → Outcome (MemberBase V × AttributeMapping V)
  get_attributes received m = do
    (attributes, output) ← get_attributes_loop received m.attributes []
    ok (record m { attributes = attributes }, output)

  -- `addAttributeSource`: the first read blocks until there is a response.
  unfoldable pub add_attribute_source :
      (first : Response V) (attribute_name memory_address : String) (request_id : ℕ)
      → MemberBase V
      → Outcome (MemberBase V)
  add_attribute_source (numerical v) attribute_name memory_address request_id m = ok (record m {
    attributes =
        m.attributes
        ++ record {
          name = attribute_name;
          shared_memory = memory_address;
          request_id = request_id;
          last_value = v;
        }
          ∷ [];
  })
  add_attribute_source other_type attribute_name memory_address request_id m = fault assertion
