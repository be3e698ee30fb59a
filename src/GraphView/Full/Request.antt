-- ===== src/GraphView/Full/Request.antt =====
-- `DataStore::getFullGraphView` of data-store.cpp as a whole. The text of the query stands in the
-- source; the channel's answer and the JSON parser are parameters.
use stream_fdl.Prelude.{
  ℕ, suc, ◌≡◌, Bool, false, Option, none, some, List, [], ◌∷◌, ◌++◌, ◌==◌, if◌then◌else◌, ==-refl,
  length, assertion, library_error, bad_optional_access, Outcome, ok, fault, ◌>>=◌, ◌>>◌,
}
use stream_fdl.Members.{PrimaryKey}
use stream_fdl.GraphView.{GraphView}
use stream_fdl.GraphView.Full.{Package, QueryResult, reassemble, get_full_graph_view}
use stream_fdl.GraphView.Full.Edges.{members, ends_of}
use stream_fdl.GraphView.Pending.{connections_of}
use stream_fdl.GraphView.Full.Reassembly.{packages_from, texts, reassemble-texts}
use stream_fdl.GraphView.Full.Total.{AllStart, named_in, get_full_graph_view-ok}

-- What the channel answers to the query: the ids that are compared, and the packages that follow.
pub record QueryAnswer : Type 0 where
  pub sent_id : ℕ
  pub response_id : ℕ
  pub packages : List Package

-- `parse` is the JSON parser with the navigation to the row, none where it throws.
unfoldable pub query_full_graph :
    (parse : List ℕ → Option QueryResult) (ignored : PrimaryKey → Bool)
    → Option QueryAnswer
    → Outcome GraphView
query_full_graph parse ignored answer = do
  response ← (elim answer [ none ↦ fault bad_optional_access | some r ↦ ok r ])
  (if response.response_id == response.sent_id then ok tt else fault assertion) >> (do
    text ← reassemble 0 [] response.packages
    q ← (elim (parse text) [ none ↦ fault library_error | some q ↦ ok q ])
    get_full_graph_view ignored q)

-- Where the query is answered under its own id, by a text in lines that are numbered from one up to
-- their count, the text parses, and each edge in it that is neither null nor of an ignored topic
-- starts at one of its nodes or topics that are not ignored, the view is returned: its vertices are
-- these nodes and topics, in order, and the connections of each key are the ends of those edges that
-- leave the key. Packages behind the text are not read.
pub query_full_graph-view :
    (parse : List ℕ → Option QueryResult) (ignored : PrimaryKey → Bool) (id : ℕ) (l : List ℕ)
    (ls : List (List ℕ)) (later : List Package) (q : QueryResult)
    → parse (texts (l ∷ ls)) ≡ some q
    → AllStart (λ e. ignored e.from) q.subs (named_in ignored q)
    → AllStart (λ e. ignored e.to) q.pubs (named_in ignored q)
    → AllStart (λ e. false) q.sends (named_in ignored q)
    → (g : GraphView) × (query_full_graph parse ignored (
          some record {
            sent_id = id;
            response_id = id;
            packages = packages_from 1 (suc (length ls)) (l ∷ ls) ++ later;
          })
        ≡ ok g)
      × (members g ≡ named_in ignored q)
      × ((key : PrimaryKey) → connections_of key g ≡ ends_of ignored q key)
unfolding query_full_graph
query_full_graph-view parse ignored id l ls later q parsed subs pubs sends =
    let (g, viewed, members_are, ends_are) = get_full_graph_view-ok ignored q subs pubs sends in
    (g, rw (==-refl id, reassemble-texts l ls later, parsed) viewed, members_are, ends_are)
