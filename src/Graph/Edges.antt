-- ===== src/Graph/Edges.antt =====
-- The edges that graph.cpp reports, against the members' own lists.
use stream_fdl.Prelude.{
  ◌≡◌, refl, inl, inr, Bool, Option, some, List, [], ◌∷◌, ◌++◌, map, arith, str_eq, if◌then◌else◌,
  Bool-cases, any, ok,
}
use mathlib.Core.List.{append_assoc, append-nil}
use stream_fdl.MemberPtr.{MemberPtr}
use stream_fdl.Members.{MemberProxy, Proxies, Member, node, topic, base_of, ClientMapping}
use stream_fdl.Graph.{
  Graph, contains_key, contains, keep_contained, keep_clients, get_outgoing, get_incoming,
}

abbrev pub select {ℓ} : {A : Type ℓ} → (A → Bool) → List A → List A
select p [] = []
select p (x ∷ xs) = if p x then x ∷ select p xs else select p xs

abbrev pub clients_in : ClientMapping → Proxies
clients_in [] = []
clients_in ((s, cs) ∷ m) = cs ++ clients_in m

select-append :
    {A : Type 0} (p : A → Bool) (xs ys : List A) → select p (xs ++ ys) ≡ select p xs ++ select p ys
select-append p [] ys = refl
select-append p (x ∷ xs) ys = ground (arith, select-append p xs ys)

module _ {V : Type 0} (deref : MemberPtr → Option (Member V)) where
  -- Every vertex points at a member; `ms` are these members.
  abbrev pub Reads : List MemberPtr → List (Member V) → Type 0
  Reads [] [] = Unit {0}
  Reads [] (m ∷ ms) = ⊥
  Reads (p ∷ ps) [] = ⊥
  Reads (p ∷ ps) (m ∷ ms) = (deref p ≡ some m) × Reads ps ms

  abbrev pub has_key : List (Member V) → MemberProxy → Bool
  has_key ms e = any (λ m. str_eq (base_of m).primary_key e.primary_key) ms

  pub contains_key-has_key :
      (e : MemberProxy) (ps : List MemberPtr) (ms : List (Member V))
      → Reads ps ms
      → contains_key deref e.primary_key ps ≡ ok (has_key ms e)
  unfolding contains_key
  contains_key-has_key e [] [] r = refl
  contains_key-has_key e [] (m ∷ ms) r = absurd r
  contains_key-has_key e (p ∷ ps) [] r = absurd r
  contains_key-has_key e (p ∷ ps) (m ∷ ms) (at, r) = ground (arith, contains_key-has_key e ps ms r)

  module _ (g : Graph) (ms : List (Member V)) (r : Reads g.vertices ms) where
    keep_contained-select :
        (es output : Proxies)
        → keep_contained deref g es output ≡ ok (output ++ select (has_key ms) es)
    unfolding keep_contained contains
    keep_contained-select [] output = rw (append-nil output)
    keep_contained-select (e ∷ es) output =
        rw (contains_key-has_key e g.vertices ms r) (elim (Bool-cases (has_key ms e)) [
          | inl i ↦ rw (i, keep_contained-select es (output ++ e ∷ []), append_assoc)
          | inr o ↦ rw (o, keep_contained-select es output)
        ])

    keep_clients-select :
        (m : ClientMapping) (output : Proxies)
        → keep_clients deref g m output ≡ ok (output ++ select (has_key ms) (clients_in m))
    unfolding keep_clients
    keep_clients-select [] output = rw (append-nil output)
    keep_clients-select ((s, cs) ∷ m) output = rw (
      keep_contained-select cs output,
      keep_clients-select m (output ++ select (has_key ms) cs),
      select-append (has_key ms) cs (clients_in m),
      append_assoc,
    )

    -- The ends of the edges that leave or enter a member, in the order of its own lists. A node's
    -- clients count as behind it, its servers as before it.
    abbrev pub edges_out : Member V → Proxies
    edges_out (topic t) = map (λ e. e.associated_node) t.subscribers
    edges_out (node n) = clients_in n.clients ++ (clients_in n.action_clients ++ n.publishes_to)

    abbrev pub edges_in : Member V → Proxies
    edges_in (topic t) = map (λ e. e.associated_node) t.publishers
    edges_in (node n) =
        map (λ s. s.1) n.servers ++ (map (λ s. s.1) n.action_servers ++ n.publishes_to)

    -- Where every vertex points at a member, `getOutgoing` returns exactly the ends of the outgoing
    -- edges whose key some vertex has, in order.
    pub get_outgoing-select :
        (m : Member V) → get_outgoing deref g m ≡ ok (select (has_key ms) (edges_out m))
    unfolding get_outgoing
    get_outgoing-select (topic t) = keep_contained-select _ []
    get_outgoing-select (node n) = rw (
      keep_clients-select n.clients [],
      keep_clients-select n.action_clients (select (has_key ms) (clients_in n.clients)),
      keep_contained-select n.publishes_to (
          select (has_key ms) (clients_in n.clients)
          ++ select (has_key ms) (clients_in n.action_clients)),
      select-append (has_key ms) (clients_in n.clients)
          (clients_in n.action_clients ++ n.publishes_to),
      select-append (has_key ms) (clients_in n.action_clients) n.publishes_to,
      append_assoc,
    )

    -- Where every vertex points at a member, `getIncoming` returns exactly those ends of a member's
    -- edges whose key some vertex has, in order: the publishers of a topic; the servers, the action
    -- servers and the topics that it publishes to of a node.
    pub get_incoming-select :
        (m : Member V) → get_incoming deref g m ≡ ok (select (has_key ms) (edges_in m))
    unfolding get_incoming
    get_incoming-select (topic t) = keep_contained-select _ []
    get_incoming-select (node n) =
        let servers : Proxies = map (λ s. s.1) n.servers in
        let actions : Proxies = map (λ s. s.1) n.action_servers in
        rw (
          keep_contained-select servers [],
          keep_contained-select actions (select (has_key ms) servers),
          keep_contained-select n.publishes_to
              (select (has_key ms) servers ++ select (has_key ms) actions),
          select-append (has_key ms) servers (actions ++ n.publishes_to),
          select-append (has_key ms) actions n.publishes_to,
          append_assoc,
        )
