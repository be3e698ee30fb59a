-- ===== src/Blindspots/Bounds.antt =====
-- The search for blind spots ends, reports each vertex at most once, and reports every dead end.
use stream_fdl.Prelude.{
  ℕ, zero, suc, ◌+◌, ◌≤◌, ◌<◌, ◌≡◌, refl, inl, inr, true, false, ◌&&◌, [], ◌∷◌, ◌++◌, arith,
  Bool-cases, Option-cases, length, Outcome, ok,
}
use stream_fdl.Members.{PrimaryKey, Proxies}
use stream_fdl.GraphView.{MemberConnections, GraphView}
use stream_fdl.Blindspots.{
  take_vertex, take_back, is_path_end, Trace, trace_edges, trace, search_all, get_blindspots,
}
use stream_fdl.Blindspots.Counts.{
  one_if, count_proxy, has_key, is_leaf, count_vertices, count_leaves, count_proxy-snoc,
  take_vertex-Takes, take_back-Takes,
}

-- A run from `graph` and `blindspots`, with vertices already taken from the graph that count `x` of
-- them and `y` dead ends, succeeds; it reports no more of a key than it takes, and no fewer than the
-- dead ends that it takes.
abbrev pub Bounded :
    GraphView → Proxies → (x y : PrimaryKey → ℕ) → Outcome (GraphView × Proxies) → Type 0
Bounded graph b x y out =
    (g' : GraphView) × (b' : Proxies) × (out ≡ ok (g', b'))
    × (length g' ≤ length graph)
    × ((k : PrimaryKey)
        → (count_proxy k b' + count_vertices k g' ≤ count_proxy k b + count_vertices k graph + x k)
          × (count_proxy k b + count_leaves k graph + y k ≤ count_proxy k b' + count_leaves k g'))

abbrev vertex_of : MemberConnections → PrimaryKey → ℕ
vertex_of v k = one_if (has_key k v)

abbrev leaf_of : MemberConnections → PrimaryKey → ℕ
leaf_of v k = one_if (is_leaf v && has_key k v)

abbrev IsTrace : ℕ → Trace → Type 0
IsTrace n call =
    (graph : GraphView) (v : MemberConnections) (path b : Proxies)
    → length graph < n
    → Bounded graph b (vertex_of v) (leaf_of v) (call graph v path b)

trace_edges-Bounded :
    (n : ℕ) (call : Trace) (is : IsTrace n call) (graph : GraphView) (es path b : Proxies)
    → length graph ≤ n
    → Bounded graph b (λ k. 0) (λ k. 0) (trace_edges call graph es path b)
unfolding trace_edges
trace_edges-Bounded n call is graph [] path b small =
    (graph, b, refl, omega arith, λ k. (omega arith, omega arith))
trace_edges-Bounded n call is graph (e ∷ es) path b small =
    elim (Option-cases (take_vertex e graph)) [
      | inl absent ↦
          let (g', b', done, len, bounds) = trace_edges-Bounded n call is graph es path b small in
          (g', b', rw (absent, trace_edges) done, len, bounds)
      | inr ((v, rest), there) ↦
          let taken = λ (k : PrimaryKey). take_vertex-Takes k e graph v rest there in
          let smaller : length rest < length graph = omega (arith, (taken "").0) in
          let (g₁, b₁, done₁, len₁, bounds₁) = is rest v path b (omega arith) in
          let (g', b', done, len, bounds) =
            trace_edges-Bounded n call is g₁ es path b₁ (omega arith) in
          (
            g',
            b',
            rw (there, trace_edges, done₁) done,
            omega arith,
            λ k. (
              omega (arith, taken k, bounds₁ k, bounds k),
              omega (arith, taken k, bounds₁ k, bounds k),
            ),
          )
    ]

no_more_leaves :
    (v : MemberConnections) (path : Proxies) (k : PrimaryKey)
    → is_path_end v.connections path ≡ false
    → leaf_of v k ≡ 0
unfolding is_path_end
no_more_leaves v path k h = go v.connections h
  where
    go :
        (cs : Proxies)
        → is_path_end cs path ≡ false
        → one_if (elim cs [ [] ↦ true | e ∷ es ↦ false ] && has_key k v) ≡ 0
    go [] h' = cc
    go (e ∷ es) h' = refl

leaf-le-vertex : (v : MemberConnections) (k : PrimaryKey) → leaf_of v k ≤ vertex_of v k
leaf-le-vertex v k = ground arith

trace-IsTrace : (fuel : ℕ) → IsTrace fuel (trace fuel)
unfolding trace
trace-IsTrace zero graph v path b small = absurd (omega arith)
trace-IsTrace (suc fuel) graph v path b small = elim (Bool-cases (is_path_end v.connections path)) [
  | inl end ↦ (
    graph,
    b ++ v.member ∷ [],
    rw end,
    omega arith,
    λ k. (
      omega (arith, count_proxy-snoc k b v.member),
      omega (arith, count_proxy-snoc k b v.member, leaf-le-vertex v k),
    ),
  )
  | inr on ↦
      let (g', b', done, len, bounds) =
        trace_edges-Bounded fuel (trace fuel) (trace-IsTrace fuel) graph v.connections
          (path ++ v.member ∷ []) b (omega arith) in
      (
        g',
        b',
        rw on done,
        len,
        λ k. (omega (arith, bounds k), omega (arith, bounds k, no_more_leaves v path k on)),
      )
]

search_all-Bounded :
    (fuel : ℕ) (graph : GraphView) (b : Proxies)
    → length graph ≤ fuel
    → (b' : Proxies) × (search_all fuel graph b ≡ ok b')
      × ((k : PrimaryKey)
          → (count_proxy k b' ≤ count_proxy k b + count_vertices k graph)
            × (count_proxy k b + count_leaves k graph ≤ count_proxy k b'))
unfolding search_all
search_all-Bounded fuel [] b small = (b, refl, λ k. (omega arith, omega arith))
search_all-Bounded zero (v ∷ g) b small = absurd (omega arith)
search_all-Bounded (suc fuel) (v ∷ g) b small =
    let last = (take_back v g).0 in
    let rest = (take_back v g).1 in
    let taken = λ (k : PrimaryKey). take_back-Takes k v g in
    let smaller : length rest < length (v ∷ g) = omega (arith, (taken "").0) in
    let (g₁, b₁, done₁, len₁, bounds₁) = trace-IsTrace (suc fuel) rest last [] b (omega arith) in
    let (b', done, bounds) = search_all-Bounded fuel g₁ b₁ (omega arith) in
    (
      b',
      rw done₁ done,
      λ k. (
        omega (arith, taken k, bounds₁ k, bounds k),
        omega (arith, taken k, bounds₁ k, bounds k),
      ),
    )

-- The search ends for every graph. It reports no key more often than the graph has vertices of that
-- key, and each key at least as often as the graph has vertices of that key with no connections.
pub get_blindspots-bounds :
    (graph : GraphView)
    → (b : Proxies) × (get_blindspots graph ≡ ok b)
      × ((k : PrimaryKey)
          → (count_proxy k b ≤ count_vertices k graph) × (count_leaves k graph ≤ count_proxy k b))
unfolding get_blindspots
get_blindspots-bounds graph =
    let (b, done, bounds) = search_all-Bounded (length graph) graph [] (omega arith) in
    (b, done, λ k. (omega (arith, bounds k), omega (arith, bounds k)))
