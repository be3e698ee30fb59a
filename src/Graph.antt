-- ===== src/Graph.antt =====
-- src/dynamic-subgraph/graph.{hpp,cpp}: the subgraph under suspicion. `deref` is the memory that the
-- handles point into: `none` where no element lies, so that reading there is the fault `dangling`.
-- Graph.Drawing has the copying constructors and a round of the drawing, up to the edges drawn.
use stream_fdl.Prelude.{
  ◌+◌, Bool, true, false, Option, none, some, List, [], ◌∷◌, ◌++◌, map, str_eq, ltb, ◌==◌,
  if◌then◌else◌, any, dangling, out_of_range, Outcome, ok, fault, ◌>>=◌,
}
pub mod Vertices
pub mod Edges
pub mod Drawing
pub mod Counting
use Prim.Native.String.{len}
use stream_fdl.AtomicCounter.{increase, decrease}
use stream_fdl.MemberPtr.{MemberPtr}
use stream_fdl.DataStore.{DataStore, adjust_counter}
use stream_fdl.Members.{
  PrimaryKey, MemberProxy, Proxies, Member, node, topic, base_of, CommunicationEdge, ClientMapping,
  ServiceMapping,
}

pub record Graph : Type 0 where
  pub vertices : List MemberPtr
  pub visualisation_pending : Bool

module _ {V : Type 0} where
  -- `add`: pointers are compared, and the flag says whether the member is new. `push_back` copies the
  -- handle, which counts.
  unfoldable pub add : MemberPtr → Graph → DataStore V → Outcome (Graph × DataStore V × Bool)
  add member g ds =
      if any (λ existing. existing == member) g.vertices then ok (g, ds, false) else (do
        ds' ← adjust_counter increase member ds
        ok (record g { vertices = g.vertices ++ member ∷ [] }, ds', true))

  -- `mVertices.clear()`: each handle is destroyed.
  unfoldable pub destroy_vertices : List MemberPtr → DataStore V → Outcome (DataStore V)
  destroy_vertices [] ds = ok ds
  destroy_vertices (p ∷ ps) ds = do ds' ← adjust_counter decrease p ds; destroy_vertices ps ds'

  unfoldable pub reset : Graph → DataStore V → Outcome (Graph × DataStore V)
  reset g ds = do ds' ← destroy_vertices g.vertices ds; ok (record g { vertices = [] }, ds')

-- `updateVisualisation`.
unfoldable pub request_visualisation : Graph → Graph
request_visualisation g = record g { visualisation_pending = true }

module _ {V : Type 0} (deref : MemberPtr → Option (Member V)) where
  abbrev pub read : MemberPtr → Outcome (Member V)
  read p = elim (deref p) [ none ↦ fault dangling | some m ↦ ok m ]

  -- The search of `contains`.
  unfoldable pub contains_key : PrimaryKey → List MemberPtr → Outcome Bool
  contains_key key [] = ok false
  contains_key key (p ∷ ps) = do
    m ← read p
    let rest = contains_key key ps
    if str_eq (base_of m).primary_key key then ok true else rest

  unfoldable pub contains : MemberProxy → Graph → Outcome Bool
  contains member g = contains_key member.primary_key g.vertices

  -- The loops over the edges: those whose end is in the graph, appended to `output`.
  unfoldable pub keep_contained : Graph → Proxies → Proxies → Outcome Proxies
  keep_contained g [] output = ok output
  keep_contained g (e ∷ es) output = do
    inside ← contains e g
    keep_contained g es (if inside then output ++ e ∷ [] else output)

  -- The loop over a map from services to lists of clients.
  unfoldable pub keep_clients : Graph → ClientMapping → Proxies → Outcome Proxies
  keep_clients g [] output = ok output
  keep_clients g ((service, clients) ∷ m) output = do
    output' ← keep_contained g clients output
    keep_clients g m output'

  unfoldable pub get_outgoing : Graph → Member V → Outcome Proxies
  get_outgoing g (topic t) = keep_contained g (map (λ e. e.associated_node) t.subscribers) []
  get_outgoing g (node n) = do
    services ← keep_clients g n.clients []
    actions ← keep_clients g n.action_clients services
    keep_contained g n.publishes_to actions

  unfoldable pub get_incoming : Graph → Member V → Outcome Proxies
  get_incoming g (topic t) = keep_contained g (map (λ e. e.associated_node) t.publishers) []
  get_incoming g (node n) = do
    services ← keep_contained g (map (λ s. s.1) n.servers) []
    actions ← keep_contained g (map (λ s. s.1) n.action_servers) services
    keep_contained g n.publishes_to actions

  -- `strcpy` into `char cPrimaryKey[37]`.
  unfoldable pub copy_key : PrimaryKey → Outcome PrimaryKey
  copy_key key = if ltb (len key) 37 then ok key else fault out_of_range

  unfoldable pub draw_targets : PrimaryKey → Proxies → Outcome (List (PrimaryKey × PrimaryKey))
  draw_targets from [] = ok []
  draw_targets from (to ∷ rest) = do
    target ← copy_key to.primary_key
    edges ← draw_targets from rest
    ok ((from, target) ∷ edges)

  -- The edges that one round of `visualise` hands to the drawing library.
  unfoldable pub draw : Graph → List MemberPtr → Outcome (List (PrimaryKey × PrimaryKey))
  draw g [] = ok []
  draw g (vertex ∷ rest) = do
    m ← read vertex
    from ← copy_key (base_of m).primary_key
    outgoing ← get_outgoing g m
    edges ← draw_targets from outgoing
    more ← draw g rest
    ok (edges ++ more)
