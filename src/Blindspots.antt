-- ===== src/Blindspots.antt =====
-- `getBlindspots` and `getBlindspotsInternal` of src/dynamic-subgraph/dynamic-subgraph.cpp: the
-- depth-first search for the vertices at which the paths through the full graph end. The graph and
-- the list of blind spots are passed by reference, so they are threaded through the calls.
use stream_fdl.Prelude.{
  ℕ, zero, suc, ◌+◌, Bool, true, false, Option, none, some, [], ◌∷◌, ◌++◌, if◌then◌else◌, length,
  any, out_of_fuel, Outcome, ok, fault, ◌>>=◌,
}
pub mod Counts
pub mod Bounds
use stream_fdl.Members.{MemberProxy, Proxies, same_proxy}
use stream_fdl.GraphView.{MemberConnections, GraphView}

-- `find_if` by the member and, where it finds a vertex, `erase`.
unfoldable pub take_vertex : MemberProxy → GraphView → Option (MemberConnections × GraphView)
take_vertex e [] = none
take_vertex e (v ∷ g) =
    let rest = take_vertex e g in
    if same_proxy v.member e
    then some (v, g)
    else elim rest [ none ↦ none | some (w, g') ↦ some (w, v ∷ g') ]

-- `back` and `pop_back`.
unfoldable pub take_back : MemberConnections → GraphView → MemberConnections × GraphView
take_back v [] = (v, [])
take_back v (w ∷ g) = let (last, rest) = take_back w g in (last, v ∷ rest)

-- No edge leads on, or the only one leads back into the path.
unfoldable pub is_path_end : Proxies → Proxies → Bool
is_path_end [] path = true
is_path_end (e ∷ []) path = any (λ p. same_proxy p e) path
is_path_end (e ∷ e' ∷ es) path = false

abbrev pub Trace : Type 0
Trace = GraphView → MemberConnections → Proxies → Proxies → Outcome (GraphView × Proxies)

-- The loop over the outgoing edges, with the recursive call as an argument.
unfoldable pub trace_edges :
    Trace → GraphView → Proxies → (path blindspots : Proxies) → Outcome (GraphView × Proxies)
trace_edges call graph [] path blindspots = ok (graph, blindspots)
trace_edges call graph (e ∷ es) path blindspots = do
  (graph', blindspots') ← elim (take_vertex e graph) [
    | none ↦ ok (graph, blindspots)
    | some (v, rest) ↦ call rest v path blindspots
  ]
  trace_edges call graph' es path blindspots'

-- `getBlindspotsInternal`.
unfoldable pub trace : ℕ → Trace
unfolding trace_edges
trace zero graph current path blindspots = fault out_of_fuel
trace (suc fuel) graph current path blindspots =
    if is_path_end current.connections path
    then ok (graph, blindspots ++ current.member ∷ [])
    else trace_edges (trace fuel) graph current.connections (path ++ current.member ∷ []) blindspots

-- The `while` loop of `getBlindspots`.
unfoldable pub search_all : ℕ → GraphView → Proxies → Outcome Proxies
search_all fuel [] blindspots = ok blindspots
search_all zero (v ∷ g) blindspots = fault out_of_fuel
search_all (suc fuel) (v ∷ g) blindspots = do
  (graph, blindspots') ← trace (suc fuel) (take_back v g).1 (take_back v g).0 [] blindspots
  search_all fuel graph blindspots'

-- Each round of either loop takes a vertex from the graph.
unfoldable pub get_blindspots : GraphView → Outcome Proxies
unfolding search_all
get_blindspots g = search_all (length g) g []
