-- ===== src/Examples/Graphs.antt =====
-- Graphs and views at concrete inputs.
use stream_fdl.Prelude.{
  inl, inr, ℕ, ◌≤◌, ◌≡◌, refl, true, false, Option, none, some, List, [], ◌∷◌, ◌++◌, ◌==◌,
  if◌then◌else◌, ok,
}
use stream_fdl.MemberPtr.{MemberPtr}
use stream_fdl.Members.{
  PrimaryKey, MemberProxy, proxy, Proxies, Member, node, topic, communication_edge, Topic,
}
use stream_fdl.Graph.{Graph, get_incoming}
use stream_fdl.Graph.Edges.{select, has_key, edges_in, get_incoming-select}
use stream_fdl.GraphView.{GraphView, vertex, get_updates}
use stream_fdl.GraphView.Pending.{
  connections_of, count_key, add_updates, others_of, get_updates-add_updates,
}
use stream_fdl.GraphView.Full.{QueryResult}
use stream_fdl.GraphView.Full.Reassembly.{packages_from}
use stream_fdl.GraphView.Full.Total.{named_in}
use stream_fdl.GraphView.Full.Edges.{members, ends_of}
use stream_fdl.Blindspots.{get_blindspots}
use stream_fdl.Blindspots.Counts.{count_proxy, count_vertices, count_leaves}
use stream_fdl.Blindspots.Bounds.{get_blindspots-bounds}
use stream_fdl.Examples.Handles.{talker_node}
use stream_fdl.Graph.Drawing.{visualise_round, drawn_edges, visualise_round-edges}
use stream_fdl.GraphView.Full.Request.{query_full_graph, query_full_graph-view}

abbrev chatter : Topic ℕ
chatter = record {
  base = record { is_topic = true; primary_key = "t1"; attributes = [] };
  name = "/chatter";
  type_name = "text";
  publishers = [];
  subscribers = communication_edge "e1" "k1" ∷ communication_edge "e2" "k9" ∷ [];
}

abbrev at : MemberPtr → Option (Member ℕ)
at p = if p == 1 then some (node talker_node) else (if p == 2 then some (topic chatter) else none)

abbrev pub two : Graph
two = record { vertices = 1 ∷ 2 ∷ []; visualisation_pending = false }

abbrev both : List (Member ℕ)
both = node talker_node ∷ topic chatter ∷ []

get_incoming-select_example :
    get_incoming at two (node talker_node)
    ≡ ok (select (has_key at both) (edges_in at two both (refl, (refl, tt)) (node talker_node)))
get_incoming-select_example = get_incoming-select at two both (refl, (refl, tt)) (node talker_node)

abbrev pairs : List (MemberProxy × MemberProxy)
pairs =
    (proxy "a" false, proxy "t" true)
    ∷ (proxy "b" false, proxy "t" true)
    ∷ (proxy "a" false, proxy "u" true)
    ∷ []

get_updates-add_updates_example :
    (connections_of "a" (get_updates (add_updates pairs [])).0 ≡ others_of "a" pairs)
    × (count_key "a" (get_updates (add_updates pairs [])).0 ≤ 1)
    × ((get_updates (add_updates pairs [])).1 ≡ [])
get_updates-add_updates_example = get_updates-add_updates pairs "a"

abbrev reply : QueryResult
reply = record {
  active = "a" ∷ "b" ∷ [];
  passive = "t" ∷ [];
  subs = record { rel_is_null = false; from = "t"; to = "b" } ∷ [];
  pubs = record { rel_is_null = false; from = "a"; to = "t" } ∷ [];
  sends = record { rel_is_null = true; from = ""; to = "" } ∷ [];
}

abbrev view : GraphView
view =
    vertex (proxy "a" false) (proxy "t" true ∷ [])
    ∷ vertex (proxy "b" false) []
    ∷ vertex (proxy "t" true) (proxy "b" false ∷ [])
    ∷ []

get_blindspots-bounds_example :
    (b : Proxies) × (get_blindspots view ≡ ok b)
    × ((k : PrimaryKey)
        → (count_proxy k b ≤ count_vertices k view) × (count_leaves k view ≤ count_proxy k b))
get_blindspots-bounds_example = get_blindspots-bounds view

abbrev pending : Graph
pending = record two { visualisation_pending = true }

visualise_round-edges_example :
    visualise_round at true pending
    ≡ ok (two, some (drawn_edges at pending both (refl, (refl, tt)) both))
visualise_round-edges_example =
    visualise_round-edges at pending both (refl, (refl, tt)) (refl, (refl, tt))

abbrev parse : List ℕ → Option QueryResult
parse text = some reply

query_full_graph-view_example :
    (g : GraphView) × (query_full_graph parse
        (λ _. false)
        (some record {
          sent_id = 4;
          response_id = 4;
          packages = packages_from 1 2 ((1 ∷ 2 ∷ []) ∷ (3 ∷ []) ∷ []) ++ [];
        })
      ≡ ok g)
    × (members g ≡ named_in (λ _. false) reply)
    × ((key : PrimaryKey) → connections_of key g ≡ ends_of (λ _. false) reply key)
query_full_graph-view_example =
    query_full_graph-view parse (λ _. false) 4 (1 ∷ 2 ∷ []) ((3 ∷ []) ∷ []) [] reply refl
      (inr refl, tt) (inr refl, tt) (inl refl, tt)
