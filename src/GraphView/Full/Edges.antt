-- ===== src/GraphView/Full/Edges.antt =====
-- The vertices and edges of the view that `getFullGraphView` builds.
use stream_fdl.Prelude.{
  ◌≡◌, refl, ap, ◌∙◌, inl, inr, Bool, true, false, ◌||◌, some, List, [], ◌∷◌, ◌++◌, arith, str_eq,
  if◌then◌else◌, Bool-cases, Option-cases, ok, ◌>>=◌, >>=-eq-ok, ok-injective, fault-ne-ok,
}
use mathlib.Core.List.{append-nil, append_assoc}
use stream_fdl.Members.{PrimaryKey, MemberProxy, proxy, Proxies}
use stream_fdl.GraphView.{GraphView, vertex, connect_to}
use stream_fdl.GraphView.Pending.{connections_of, new_end, connections_of-connect_to}
use stream_fdl.GraphView.Full.{
  Edge, QueryResult, add_nodes, add_topics, connect_edges, get_full_graph_view,
}

-- The ends of the edges from a key that are not skipped.
unfoldable pub ends_from : (Edge → Bool) → Bool → PrimaryKey → List Edge → Proxies
ends_from skip to_topic key [] = []
ends_from skip to_topic key (e ∷ es) =
    if e.rel_is_null || skip e
    then ends_from skip to_topic key es
    else (if str_eq e.from key
        then proxy e.to to_topic ∷ ends_from skip to_topic key es
        else ends_from skip to_topic key es)

abbrev pub members : GraphView → Proxies
members [] = []
members (v ∷ g) = v.member ∷ members g

pub members-connect_to :
    (k : PrimaryKey) (other : MemberProxy) (g g' : GraphView)
    → connect_to k other g ≡ some g'
    → members g' ≡ members g
unfolding connect_to
members-connect_to k other [] g' h = cc
members-connect_to k other (v ∷ g) g' h = elim (Option-cases (connect_to k other g)) [
  | inl e ↦ ground arith
  | inr (g'', e) ↦ ground (arith, members-connect_to k other g g'' e)
]

new_end-append :
    (key k : PrimaryKey) (other : MemberProxy) (cs es : Proxies)
    → (cs ++ new_end key k other) ++ es ≡ cs ++ (if str_eq k key then other ∷ es else es)
new_end-append key k other cs es = elim (Bool-cases (str_eq k key)) [
  | inl e ↦ rw (e, append_assoc)
  | inr e ↦ rw (e, append-nil)
]

-- What `connect_edges` does to a view, if it succeeds.
abbrev Connected : (Edge → Bool) → Bool → List Edge → GraphView → GraphView → Type 0
Connected skip t es g g' =
    (members g' ≡ members g)
    × ((key : PrimaryKey) → connections_of key g' ≡ connections_of key g ++ ends_from skip t key es)

connect_edges-Connected :
    (skip : Edge → Bool) (t : Bool) (es : List Edge) (g g' : GraphView)
    → connect_edges skip t es g ≡ ok g'
    → Connected skip t es g g'
unfolding connect_edges ends_from
connect_edges-Connected skip t [] g g' h = rw (← ok-injective h) (refl, λ key. rw append-nil)
connect_edges-Connected skip t (e ∷ es) g g' h = elim (Bool-cases (e.rel_is_null || skip e)) [
  | inl s ↦
      let (same, ends) = connect_edges-Connected skip t es g g' (rw s at h) in
      (same, λ key. rw s (ends key))
  | inr k ↦ elim (Option-cases (connect_to e.from (proxy e.to t) g)) [
    | inl absent ↦ absurd (fault-ne-ok (rw (k, absent, connect_edges) at h))
    | inr (g'', there) ↦
        let (same, ends) =
          connect_edges-Connected skip t es g'' g' (rw (k, there, connect_edges) at h) in
        (
          same ∙ members-connect_to e.from (proxy e.to t) g g'' there,
          λ key. rw k (
              ends key
              ∙ ap (λ c. c ++ ends_from skip t key es)
                  (connections_of-connect_to key e.from (proxy e.to t) g g'' there)
              ∙ new_end-append key e.from (proxy e.to t) (connections_of key g)
                  (ends_from skip t key es)),
        )
  ]
]

-- The vertices before any edge is added.
abbrev pub vertices_of : (PrimaryKey → Bool) → QueryResult → GraphView
vertices_of ignored q = add_topics ignored q.passive (add_nodes q.active [])

-- The ends of the edges of a reply that leave a key: first those of its subscriptions (a topic's
-- subscribers), then the topics that it publishes to, then those that it sends to.
unfoldable pub ends_of : (PrimaryKey → Bool) → QueryResult → PrimaryKey → Proxies
ends_of ignored q key =
    ends_from (λ e. ignored e.from) false key q.subs
    ++ (ends_from (λ e. ignored e.to) true key q.pubs ++ ends_from (λ e. false) false key q.sends)

view-Connected :
    (ignored : PrimaryKey → Bool) (q : QueryResult) (g : GraphView)
    → get_full_graph_view ignored q ≡ ok g
    → (members g ≡ members (vertices_of ignored q))
      × ((key : PrimaryKey)
          → connections_of key g
            ≡ connections_of key (vertices_of ignored q) ++ ends_of ignored q key)
unfolding get_full_graph_view ends_of
view-Connected ignored q g h =
    let subs = λ (w : GraphView). connect_edges (λ e. ignored e.from) false q.subs w in
    let pubs = λ (w : GraphView). connect_edges (λ e. ignored e.to) true q.pubs w in
    let sends = λ (w : GraphView). connect_edges (λ e. false) false q.sends w in
    let vertices : GraphView = vertices_of ignored q in
    let (g', done', h') = >>=-eq-ok (subs vertices) (λ w. pubs w >>= sends) h in
    let (g'', done'', h'') = >>=-eq-ok (pubs g') sends h' in
    let (same, ends) =
      connect_edges-Connected (λ e. ignored e.from) false q.subs vertices g' done' in
    let (same', ends') = connect_edges-Connected (λ e. ignored e.to) true q.pubs g' g'' done'' in
    let (same'', ends'') = connect_edges-Connected (λ e. false) false q.sends g'' g h'' in
    (same'' ∙ same' ∙ same, λ key. rw (ends'' key, ends' key, ends key, append_assoc, append_assoc))

members-append : (g h : GraphView) → members (g ++ h) ≡ members g ++ members h
members-append [] h = refl
members-append (v ∷ g) h = rw (members-append g h)

connections_of-new_vertex :
    (key : PrimaryKey) (m : MemberProxy) (g : GraphView)
    → connections_of key (g ++ vertex m [] ∷ []) ≡ connections_of key g
unfolding connections_of
connections_of-new_vertex key m [] = ground arith
connections_of-new_vertex key m (v ∷ g) = ground (arith, connections_of-new_vertex key m g)

add_nodes-connections_of :
    (key : PrimaryKey) (ks : List PrimaryKey) (g : GraphView)
    → connections_of key (add_nodes ks g) ≡ connections_of key g
unfolding add_nodes
add_nodes-connections_of key [] g = refl
add_nodes-connections_of key (k ∷ ks) g =
    add_nodes-connections_of key ks _ ∙ connections_of-new_vertex key (proxy k false) g

add_topics-connections_of :
    (ignored : PrimaryKey → Bool) (key : PrimaryKey) (ks : List PrimaryKey) (g : GraphView)
    → connections_of key (add_topics ignored ks g) ≡ connections_of key g
unfolding add_topics
add_topics-connections_of ignored key [] g = refl
add_topics-connections_of ignored key (k ∷ ks) g = elim (Bool-cases (ignored k)) [
  | inl e ↦ rw e (add_topics-connections_of ignored key ks g)
  | inr e ↦ rw e (
      add_topics-connections_of ignored key ks (g ++ vertex (proxy k true) [] ∷ [])
      ∙ connections_of-new_vertex key (proxy k true) g)
]

-- The members that a reply names: its nodes, and its topics that are not ignored.
abbrev pub nodes_in : List PrimaryKey → Proxies
nodes_in [] = []
nodes_in (k ∷ ks) = proxy k false ∷ nodes_in ks

abbrev pub topics_in : (PrimaryKey → Bool) → List PrimaryKey → Proxies
topics_in ignored [] = []
topics_in ignored (k ∷ ks) =
    if ignored k then topics_in ignored ks else proxy k true ∷ topics_in ignored ks

pub members-add_nodes :
    (ks : List PrimaryKey) (g : GraphView) → members (add_nodes ks g) ≡ members g ++ nodes_in ks
unfolding add_nodes
members-add_nodes [] g = rw append-nil
members-add_nodes (k ∷ ks) g = rw (
  members-add_nodes ks (g ++ vertex (proxy k false) [] ∷ []),
  members-append g (vertex (proxy k false) [] ∷ []),
  append_assoc,
)

pub members-add_topics :
    (ignored : PrimaryKey → Bool) (ks : List PrimaryKey) (g : GraphView)
    → members (add_topics ignored ks g) ≡ members g ++ topics_in ignored ks
unfolding add_topics
members-add_topics ignored [] g = rw append-nil
members-add_topics ignored (k ∷ ks) g = elim (Bool-cases (ignored k)) [
  | inl e ↦ rw e (members-add_topics ignored ks g)
  | inr e ↦ rw (
    e,
    members-add_topics ignored ks (g ++ vertex (proxy k true) [] ∷ []),
    members-append g (vertex (proxy k true) [] ∷ []),
    append_assoc,
  )
]

-- If `getFullGraphView` returns a view, its vertices are the nodes of the reply and its topics that
-- are not ignored, in order, and the connections of each key are the ends of the reply's edges that
-- leave the key, without those that are null or concern an ignored topic.
pub get_full_graph_view-view :
    (ignored : PrimaryKey → Bool) (q : QueryResult) (g : GraphView)
    → get_full_graph_view ignored q ≡ ok g
    → (members g ≡ nodes_in q.active ++ topics_in ignored q.passive)
      × ((key : PrimaryKey) → connections_of key g ≡ ends_of ignored q key)
unfolding connections_of
get_full_graph_view-view ignored q g h =
    let (same, ends) = view-Connected ignored q g h in
    (
      same
          ∙ members-add_topics ignored q.passive (add_nodes q.active [])
          ∙ ap (λ ms. ms ++ topics_in ignored q.passive) (members-add_nodes q.active []),
      λ key.
          ends key
          ∙ ap (λ cs. cs ++ ends_of ignored q key)
              (add_topics-connections_of ignored key q.passive (add_nodes q.active [])
                ∙ add_nodes-connections_of key q.active []),
    )
