-- ===== src/GraphView/Full/Total.antt =====
-- `getFullGraphView` of data-store.cpp returns a view for every consistent reply.
use stream_fdl.Prelude.{
  ◌≡◌, refl, sym, ap, ◌∙◌, subst, ◌⊎◌, inl, inr, Bool, true, false, ◌||◌, some, List, [], ◌∷◌, ◌++◌,
  arith, str_eq, Bool-cases, any, ok,
}
use stream_fdl.Members.{PrimaryKey, MemberProxy, Proxies, proxy}
use stream_fdl.GraphView.{GraphView, connect_to}
use stream_fdl.GraphView.Full.{
  Edge, QueryResult, add_nodes, add_topics, connect_edges, get_full_graph_view,
}
use stream_fdl.GraphView.Full.Edges.{
  members, members-connect_to, members-add_nodes, members-add_topics, nodes_in, topics_in, ends_of,
  get_full_graph_view-view,
}
use stream_fdl.GraphView.Pending.{connections_of}

abbrev pub among_keys : PrimaryKey → Proxies → Bool
among_keys k = any (λ p. str_eq p.primary_key k)

-- Each edge that is neither null nor skipped starts at one of the members.
abbrev pub AllStart : (Edge → Bool) → List Edge → Proxies → Type 0
AllStart skip [] ms = Unit {0}
AllStart skip (e ∷ es) ms =
    ((e.rel_is_null || skip e) ≡ true ⊎ (among_keys e.from ms ≡ true)) × AllStart skip es ms

connect_to-some :
    (k : PrimaryKey) (other : MemberProxy) (g : GraphView)
    → among_keys k (members g) ≡ true
    → (g' : GraphView) × (connect_to k other g ≡ some g')
unfolding connect_to
connect_to-some k other [] h = absurd (ground arith)
connect_to-some k other (v ∷ g) h = elim (Bool-cases (str_eq v.member.primary_key k)) [
  | inl e ↦ (record v { connections = v.connections ++ other ∷ [] } ∷ g, ground arith)
  | inr e ↦ let (g', found) = connect_to-some k other g (ground arith) in (v ∷ g', ground arith)
]

connect_edges-ok :
    (skip : Edge → Bool) (to_topic : Bool) (es : List Edge) (g : GraphView)
    → AllStart skip es (members g)
    → (g' : GraphView) × (connect_edges skip to_topic es g ≡ ok g') × (members g' ≡ members g)
unfolding connect_edges
connect_edges-ok skip to_topic [] g h = (g, refl, refl)
connect_edges-ok skip to_topic (e ∷ es) g (inl skipped, rest) =
    let (g', run, same) = connect_edges-ok skip to_topic es g rest in (g', rw skipped run, same)
connect_edges-ok skip to_topic (e ∷ es) g (inr start, rest) =
    elim (Bool-cases (e.rel_is_null || skip e)) [
      | inl skipped ↦
          let (g', run, same) = connect_edges-ok skip to_topic es g rest in
          (g', rw skipped run, same)
      | inr kept ↦
          let (g₁, found) = connect_to-some e.from (proxy e.to to_topic) g start in
          let same₁ = members-connect_to e.from (proxy e.to to_topic) g g₁ found in
          let (g', run, same) =
            connect_edges-ok skip to_topic es g₁ (subst (AllStart skip es) (sym same₁) rest) in
          (g', rw (kept, found) run, same ∙ same₁)
    ]

-- The members of the view.
abbrev pub named_in : (PrimaryKey → Bool) → QueryResult → Proxies
named_in ignored q = nodes_in q.active ++ topics_in ignored q.passive

members-named_in :
    (ignored : PrimaryKey → Bool) (q : QueryResult)
    → members (add_topics ignored q.passive (add_nodes q.active [])) ≡ named_in ignored q
members-named_in ignored q =
    members-add_topics ignored q.passive (add_nodes q.active [])
    ∙ ap (λ ms. ms ++ topics_in ignored q.passive) (members-add_nodes q.active [])

-- Where each edge of the reply that is neither null nor of an ignored topic starts at one of the
-- reply's nodes or topics that are not ignored, `getFullGraphView` returns a view; its vertices are
-- these nodes and topics, in order, and the connections of each key are the ends of those edges
-- that leave the key.
pub get_full_graph_view-ok :
    (ignored : PrimaryKey → Bool) (q : QueryResult)
    → AllStart (λ e. ignored e.from) q.subs (named_in ignored q)
    → AllStart (λ e. ignored e.to) q.pubs (named_in ignored q)
    → AllStart (λ e. false) q.sends (named_in ignored q)
    → (g : GraphView) × (get_full_graph_view ignored q ≡ ok g)
      × (members g ≡ named_in ignored q)
      × ((key : PrimaryKey) → connections_of key g ≡ ends_of ignored q key)
unfolding get_full_graph_view
get_full_graph_view-ok ignored q subs pubs sends =
    let vertices = add_topics ignored q.passive (add_nodes q.active []) in
    let named = members-named_in ignored q in
    let (g₁, run₁, same₁) =
      connect_edges-ok (λ e. ignored e.from) false q.subs vertices
        (subst (AllStart (λ e. ignored e.from) q.subs) (sym named) subs) in
    let (g₂, run₂, same₂) =
      connect_edges-ok (λ e. ignored e.to) true q.pubs g₁
        (subst (AllStart (λ e. ignored e.to) q.pubs) (sym (same₁ ∙ named)) pubs) in
    let (g₃, run₃, same₃) =
      connect_edges-ok (λ e. false) false q.sends g₂
        (subst (AllStart (λ e. false) q.sends) (sym (same₂ ∙ same₁ ∙ named)) sends) in
    let run : get_full_graph_view ignored q ≡ ok g₃ = rw (run₁, run₂) run₃ in
    let (vertices_are, ends_are) = get_full_graph_view-view ignored q g₃ run in
    (g₃, run, vertices_are, ends_are)
