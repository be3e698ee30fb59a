-- ===== src/GraphView/Full.antt =====
-- `DataStore::getFullGraphView` of data-store.cpp, from the received packages and the parsed reply
-- on; Full.Request has the whole of it. The channel and the JSON parser are no code of the
-- repository. A text is a list of characters.
use stream_fdl.Prelude.{
  ℕ, ◌+◌, Bool, true, false, not, ◌||◌, none, some, List, [], ◌∷◌, ◌++◌, ltb, if◌then◌else◌,
  assertion, out_of_fuel, Outcome, ok, fault, ◌>>=◌,
}
pub mod Reassembly
pub mod Edges
pub mod Total
pub mod Request
use stream_fdl.Members.{PrimaryKey, MemberProxy, proxy, Proxies}
use stream_fdl.GraphView.{MemberConnections, GraphView, vertex, connect_to}

-- `sharedMem::Response` of a query: one of `total` numbered lines.
pub record Package : Type 0 where
  pub textual : Bool
  pub number : ℕ
  pub total : ℕ
  pub line : List ℕ

-- The `do … while` loop. Where the packages run out, the call waits for ever.
unfoldable pub reassemble : ℕ → List ℕ → List Package → Outcome (List ℕ)
reassemble previous text [] = fault out_of_fuel
reassemble previous text (p ∷ ps) =
    let rest = reassemble p.number (text ++ p.line) ps in
    if not p.textual
    then fault assertion
    else (if not (ltb previous p.number)
        then fault assertion
        else (if ltb p.number p.total then rest else ok (text ++ p.line)))

-- An element of the arrays `sub`, `pub` and `send` of the reply.
pub record Edge : Type 0 where
  pub rel_is_null : Bool
  pub from : PrimaryKey
  pub to : PrimaryKey

pub record QueryResult : Type 0 where
  pub active : List PrimaryKey
  pub passive : List PrimaryKey
  pub subs : List Edge
  pub pubs : List Edge
  pub sends : List Edge

unfoldable pub add_nodes : List PrimaryKey → GraphView → GraphView
add_nodes [] output = output
add_nodes (k ∷ ks) output = add_nodes ks (output ++ vertex (proxy k false) [] ∷ [])

-- `ignored` is `checkTopicPrimaryIgnored`.
unfoldable pub add_topics : (PrimaryKey → Bool) → List PrimaryKey → GraphView → GraphView
add_topics ignored [] output = output
add_topics ignored (k ∷ ks) output =
    add_topics ignored ks (if ignored k then output else output ++ vertex (proxy k true) [] ∷ [])

-- One of the three loops over the edges: which it skips, and whether they lead to topics.
unfoldable pub connect_edges : (Edge → Bool) → Bool → List Edge → GraphView → Outcome GraphView
connect_edges skip to_topic [] output = ok output
connect_edges skip to_topic (e ∷ es) output = do
  output' ←
      if e.rel_is_null || skip e
      then ok output
      else (elim (connect_to e.from (proxy e.to to_topic) output) [
        | none ↦ fault assertion
        | some g ↦ ok g
      ])
  connect_edges skip to_topic es output'

unfoldable pub get_full_graph_view : (PrimaryKey → Bool) → QueryResult → Outcome GraphView
unfolding add_nodes add_topics
get_full_graph_view ignored q = do
  let vertices = add_topics ignored q.passive (add_nodes q.active [])
  with_subs ← connect_edges (λ e. ignored e.from) false q.subs vertices
  with_pubs ← connect_edges (λ e. ignored e.to) true q.pubs with_subs
  connect_edges (λ e. false) false q.sends with_pubs
