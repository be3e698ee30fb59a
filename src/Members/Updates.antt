-- ===== src/Members/Updates.antt =====
-- What the updates of a node leave in it (members.hpp, members.cpp).
use stream_fdl.Prelude.{
  String, ◌≡◌, refl, sym, ◌∙◌, subst, inl, inr, Bool, true, false, none, some, List, [], ◌∷◌, ◌++◌,
  str_eq, str_eq_iff, if◌then◌else◌, Bool-cases, Option-cases,
}
use mathlib.Core.Bool.{xor}
use stream_fdl.StdMap
use stream_fdl.StdMap.Strings.{equivalent-eq}
use stream_fdl.StdMap.{str_less, equivalent, str_equivalent_refl}
use stream_fdl.Members.{
  PrimaryKey, Timestamp, proxy, Proxies, ClientMapping, Node, add_client, update_state,
  update_is_server_for, update_is_action_server_for, update_is_client_of,
  update_is_action_client_of, update_publishers_to, update_subscribers_to, NodeResponse, make_node,
}

pub clients_of : String → ClientMapping → Proxies
clients_of s m = elim (StdMap.find str_less s m) [ some cs ↦ cs | none ↦ [] ]

find-add_client :
    (s : String) (c : PrimaryKey) (m : ClientMapping)
    → StdMap.find str_less s (add_client s c m) ≡ some (clients_of s m ++ proxy c false ∷ [])
unfolding add_client clients_of
find-add_client s c m = elim (Option-cases (StdMap.find str_less s m)) [
  | inl e ↦
      rw (e, add_client, clients_of)
        (StdMap.find-modify_self str_less s _ _ []
          (StdMap.find-emplace_self str_less s [] m (str_equivalent_refl s) ∙ rw e))
  | inr (cs, e) ↦ rw (e, add_client, clients_of) (StdMap.find-modify_self str_less s _ _ cs e)
]

find-add_client_other :
    (s j : String) (c : PrimaryKey) (m : ClientMapping)
    → str_eq s j ≡ false
    → StdMap.find str_less j (add_client s c m) ≡ StdMap.find str_less j m
unfolding add_client
find-add_client_other s j c m other = elim (Option-cases (StdMap.find str_less s m)) [
  | inl e ↦
      rw (e, add_client)
        (StdMap.find-modify_other str_less s j _ _ apart
          ∙ StdMap.find-emplace_other str_less s j [] m (equivalent-eq s j ∙ other))
  | inr (cs, e) ↦ rw (e, add_client) (StdMap.find-modify_other str_less s j _ _ apart)
]
  where
    apart : (i : String) → equivalent str_less i s ≡ true → equivalent str_less i j ≡ false
    apart i same =
        equivalent-eq i j
        ∙ subst (λ k. str_eq k j ≡ false)
            (sym ((str_eq_iff i s).0 (sym (equivalent-eq i s) ∙ same))) other

eq_of_not-xor : (a b : Bool) → xor a b ≡ false → a ≡ b
unfolding xor
eq_of_not-xor true true e = refl
eq_of_not-xor true false e = cc
eq_of_not-xor false true e = cc
eq_of_not-xor false false e = refl

module _ {V : Type 0} (n : Node V) where
  -- After a service update the service's clients are the earlier ones with the new client behind
  -- them, and every other service has the clients that it had.
  pub update_is_server_for-clients :
      (s : String) (c : PrimaryKey)
      → (StdMap.find str_less s (update_is_server_for s c n).clients
          ≡ some (clients_of s n.clients ++ proxy c false ∷ []))
        × ((j : String)
            → str_eq s j ≡ false
            → StdMap.find str_less j (update_is_server_for s c n).clients
              ≡ StdMap.find str_less j n.clients)
  unfolding update_is_server_for
  update_is_server_for-clients s c =
      (find-add_client s c n.clients, λ j. find-add_client_other s j c n.clients)

  -- A state update leaves the node alive exactly when the new state is `ACTIVE`, and the time of
  -- the last change is the update's if that is news and the old one if it is not.
  pub update_state_lem :
      (active : Bool) (time : Timestamp)
      → ((update_state active time n).alive ≡ active)
        × ((update_state active time n).alive_change_time
            ≡ (if xor active n.alive then time else n.alive_change_time))
  unfolding update_state
  update_state_lem active time = elim (Bool-cases (xor active n.alive)) [
    | inl e ↦ rw e (refl, refl)
    | inr e ↦ rw e (sym (eq_of_not-xor active n.alive e), refl)
  ]

-- The updates of a node, one constructor for each overload of `Node::update`.
pub data NodeUpdate : Type 0 where
  publishers_to : PrimaryKey → NodeUpdate
  subscribers_to : PrimaryKey → NodeUpdate
  is_server_for : String → PrimaryKey → NodeUpdate
  is_action_server_for : String → PrimaryKey → NodeUpdate
  is_client_of : String → PrimaryKey → NodeUpdate
  is_action_client_of : String → PrimaryKey → NodeUpdate
  state : Bool → Timestamp → NodeUpdate

module _ {V : Type 0} where
  unfoldable pub apply_update : NodeUpdate → Node V → Node V
  apply_update (publishers_to k) n = update_publishers_to k n
  apply_update (subscribers_to k) n = update_subscribers_to k n
  apply_update (is_server_for s k) n = update_is_server_for s k n
  apply_update (is_action_server_for s k) n = update_is_action_server_for s k n
  apply_update (is_client_of s k) n = update_is_client_of s k n
  apply_update (is_action_client_of s k) n = update_is_action_client_of s k n
  apply_update (state active time) n = update_state active time n

  unfoldable pub apply_updates : List NodeUpdate → Node V → Node V
  unfolding apply_update
  apply_updates [] n = n
  apply_updates (u ∷ us) n = apply_updates us (apply_update u n)

  apply_update-action_clients :
      (u : NodeUpdate) (n : Node V) → (apply_update u n).action_clients ≡ n.action_clients
  unfolding apply_update update_publishers_to update_subscribers_to update_is_server_for
      update_is_action_server_for update_is_client_of update_is_action_client_of update_state
  apply_update-action_clients (publishers_to k) n = refl
  apply_update-action_clients (subscribers_to k) n = refl
  apply_update-action_clients (is_server_for s k) n = refl
  apply_update-action_clients (is_action_server_for s k) n = refl
  apply_update-action_clients (is_client_of s k) n = refl
  apply_update-action_clients (is_action_client_of s k) n = refl
  apply_update-action_clients (state active time) n = elim (Bool-cases (xor active n.alive)) [
    | inl e ↦ rw e
    | inr e ↦ rw e
  ]

  apply_updates-kept :
      (us : List NodeUpdate) (n : Node V) → (apply_updates us n).action_clients ≡ n.action_clients
  unfolding apply_updates
  apply_updates-kept [] n = refl
  apply_updates-kept (u ∷ us) n =
      apply_updates-kept us (apply_update u n) ∙ apply_update-action_clients u n

-- Whatever updates a node receives, its map of action clients stays as empty as the constructor
-- leaves it.
pub apply_updates-action_clients :
    (V : Type 0) (r : NodeResponse) (us : List NodeUpdate)
    → (apply_updates us (make_node {V = V} r)).action_clients ≡ []
unfolding make_node
apply_updates-action_clients V r us = apply_updates-kept us (make_node r)
