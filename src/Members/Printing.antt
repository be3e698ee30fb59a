-- ===== src/Members/Printing.antt =====
-- How members, handles and lists are printed: the operators `<<` of member-base.cpp, atomic-counter.cpp
-- and common.hpp. What a stream prints of a number and of an address are parameters.
use stream_fdl.Prelude.{
  ℕ, String, Option, none, some, List, [], ◌∷◌, ◌==◌, if◌then◌else◌, dangling, Outcome, ok, fault,
}
use Prim.Native.String.{◌++◌ as ◌<<◌}
use stream_fdl.AtomicCounter.{AtomicCounter}
use stream_fdl.MemberPtr.{MemberPtr, null}
use stream_fdl.Members.{MemberProxy, Member, base_of}

unfoldable pub print_proxy : MemberProxy → String
print_proxy p = (if p.is_topic then "Proxy(Topic(" else "Proxy(Node(") << p.primary_key << "))"

module _ {T : Type 0} (print : T → String) where
  print_rest : List T → String
  print_rest [] = "}"
  print_rest (x ∷ xs) = ", " << print x << print_rest xs

  -- `operator<<` of a `std::vector`.
  unfoldable pub print_vector : List T → String
  unfolding print_rest
  print_vector [] = "{}"
  print_vector (x ∷ xs) = "{" << print x << print_rest xs

module _ (print_number : ℕ → String) (print_address : ℕ → String) where
  unfoldable pub print_counter : AtomicCounter → String
  print_counter c = print_number c.value

  -- The operator on a pointer to a member.
  unfoldable pub print_member : {V : Type 0} → MemberPtr → Member V → String
  print_member p m =
      (if (base_of m).is_topic then "Topic(" else "Node(")
      << (base_of m).primary_key
      << "@"
      << print_address p
      << ")"

  -- The operator on a handle, with the member and the counter that it points at.
  unfoldable pub print_member_ptr :
      {V : Type 0} → MemberPtr → Option (Member V × AtomicCounter) → Outcome String
  print_member_ptr p target = if p == null then ok "Ptr()" else (elim target [
    | none ↦ fault dangling
    | some (m, c) ↦ ok ("Ptr(" << print_member p m << " with counter: " << print_counter c << ")")
  ])
