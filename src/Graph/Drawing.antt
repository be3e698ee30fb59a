-- ===== src/Graph/Drawing.antt =====
-- The drawing of graph.cpp: what `visualise` hands to the drawing library. The keys are copied into
-- a buffer of 37 characters.
use stream_fdl.Prelude.{
  ◌≡◌, refl, ap, subst, inl, inr, Bool, true, false, not, Option, none, some, List, [], ◌∷◌, ◌++◌,
  map, arith, str_eq, str_eq_iff, ltb, if◌then◌else◌, Bool-cases, assertion, Outcome, ok, fault,
  ◌>>=◌,
}
use Prim.Native.String.{len}
use stream_fdl.AtomicCounter.{increase}
use stream_fdl.MemberPtr.{MemberPtr}
use stream_fdl.DataStore.{DataStore, adjust_counter}
use stream_fdl.Members.{PrimaryKey, MemberProxy, Proxies, Member, base_of}
use stream_fdl.Graph.{Graph, read, copy_key, draw_targets, draw}
use stream_fdl.Graph.Edges.{select, Reads, has_key, edges_out, get_outgoing-select}

module _ {V : Type 0} where
  -- The copy of the vertices, each a handle that counts.
  copy_vertices : List MemberPtr → DataStore V → Outcome (List MemberPtr × DataStore V)
  copy_vertices [] ds = ok ([], ds)
  copy_vertices (p ∷ ps) ds = do
    ds' ← adjust_counter increase p ds
    (copied, ds'') ← copy_vertices ps ds'
    ok (p ∷ copied, ds'')

  -- `Graph(const Graph &)`.
  unfoldable pub copy : Graph → DataStore V → Outcome (Graph × DataStore V)
  unfolding copy_vertices
  copy other ds = do
    (vertices, ds') ← copy_vertices other.vertices ds
    ok (record { vertices = vertices; visualisation_pending = false }, ds')

-- `Graph(Graph &&)`: the new graph, and what is left of the other.
unfoldable pub move : Graph → Graph × Graph
move other = (
  record { vertices = other.vertices; visualisation_pending = false },
  record other { vertices = [] },
)

abbrev IsShort : PrimaryKey → Type 0
IsShort key = ltb (len key) 37 ≡ true

-- The pairs of keys that are drawn for an edge list.
abbrev edges_from : PrimaryKey → Proxies → List (PrimaryKey × PrimaryKey)
edges_from from es = map (λ e. (from, e.primary_key)) es

module _ {V : Type 0} (deref : MemberPtr → Option (Member V)) where
  -- One round of `visualise`: the edges that are drawn, none where no update was asked for.
  -- `file_opens` says whether the image file can be opened.
  unfoldable pub visualise_round :
      (file_opens : Bool) → Graph → Outcome (Graph × Option (List (PrimaryKey × PrimaryKey)))
  visualise_round file_opens g = if not g.visualisation_pending then ok (g, none) else (do
    edges ← draw deref g g.vertices
    if file_opens
        then ok (record g { visualisation_pending = false }, some edges)
        else fault assertion)

  -- The members' keys fit into the buffer.
  abbrev pub HaveShortKeys : List (Member V) → Type 0
  HaveShortKeys [] = Unit {0}
  HaveShortKeys (m ∷ ms) = IsShort (base_of m).primary_key × HaveShortKeys ms

  has_key-IsShort :
      (ms : List (Member V)) (e : MemberProxy)
      → HaveShortKeys ms
      → has_key deref ms e ≡ true
      → IsShort e.primary_key
  has_key-IsShort [] e short has = cc
  has_key-IsShort (m ∷ ms) e (s, short) has =
      elim (Bool-cases (str_eq (base_of m).primary_key e.primary_key)) [
        | inl same ↦ subst IsShort ((str_eq_iff (base_of m).primary_key e.primary_key).0 same) s
        | inr other ↦ has_key-IsShort ms e short (ground (arith, has, other))
      ]

  copy_key-IsShort : (key : PrimaryKey) → IsShort key → copy_key deref key ≡ ok key
  unfolding copy_key
  copy_key-IsShort key short = rw short

  draw_targets-select :
      (from : PrimaryKey) (ms : List (Member V)) (es : Proxies)
      → HaveShortKeys ms
      → draw_targets deref from (select (has_key deref ms) es)
        ≡ ok (edges_from from (select (has_key deref ms) es))
  unfolding draw_targets copy_key
  draw_targets-select from ms [] short = refl
  draw_targets-select from ms (e ∷ es) short = elim (Bool-cases (has_key deref ms e)) [
    | inl i ↦ rw (i, has_key-IsShort ms e short i, draw_targets-select from ms es short)
    | inr o ↦ rw (o, draw_targets-select from ms es short)
  ]

  module _ (g : Graph) (ms : List (Member V)) (r : Reads deref g.vertices ms) where
    -- From each of some members, the edges whose end has the key of a vertex.
    abbrev pub drawn_edges : List (Member V) → List (PrimaryKey × PrimaryKey)
    drawn_edges [] = []
    drawn_edges (m ∷ rest) =
        edges_from (base_of m).primary_key (select (has_key deref ms) (edges_out deref g ms r m))
        ++ drawn_edges rest

    draw-drawn_edges :
        (short : HaveShortKeys ms) (ps : List MemberPtr) (rest : List (Member V))
        → Reads deref ps rest
        → HaveShortKeys rest
        → draw deref g ps ≡ ok (drawn_edges rest)
    unfolding draw
    draw-drawn_edges short [] [] reads fit = refl
    draw-drawn_edges short [] (m ∷ rest) reads fit = absurd reads
    draw-drawn_edges short (p ∷ ps) [] reads fit = absurd reads
    draw-drawn_edges short (p ∷ ps) (m ∷ rest) (at, reads) (fits, fit) =
        let found : read deref p ≡ ok m = rw (read, at) in
        rw (
          found,
          copy_key-IsShort (base_of m).primary_key fits,
          get_outgoing-select deref g ms r m,
          draw_targets-select (base_of m).primary_key ms (edges_out deref g ms r m) short,
          draw-drawn_edges short ps rest reads fit,
        )

    -- Where every vertex points at a member whose key has at most 36 characters, and the image file
    -- opens, a round of `visualise` copies no key past the end of its buffer and succeeds: without a
    -- request it draws nothing; after one it takes the request back and draws, vertex by vertex,
    -- exactly the outgoing edges whose end is in the graph.
    pub visualise_round-edges :
        HaveShortKeys ms
        → visualise_round true g
          ≡ ok (
            record g { visualisation_pending = false },
            if g.visualisation_pending then some (drawn_edges ms) else none,
          )
    unfolding visualise_round
    visualise_round-edges short = elim (Bool-cases g.visualisation_pending) [
      | inl asked ↦ rw (draw-drawn_edges short g.vertices ms r short, asked)
      | inr idle ↦ rw idle (ap (λ h. ok (h, none)) refl)
    ]
