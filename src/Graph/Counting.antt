-- ===== src/Graph/Counting.antt =====
-- The use counters of the members in the graph of graph.{hpp,cpp}.
use stream_fdl.Prelude.{◌≡◌, true, false, List, [], ◌∷◌, if◌then◌else◌, Outcome, ok, ◌>>=◌}
use stream_fdl.Prelude.After.{After}
use stream_fdl.Prelude.All.{All}
use stream_fdl.AtomicCounter.{AtomicCounter, increase}
use stream_fdl.MemberPtr.{MemberPtr, Counters}
use stream_fdl.Graph.{Graph, add}
use stream_fdl.Graph.Vertices.{among, IsDistinct}
use stream_fdl.DataStore.{DataStore}
use stream_fdl.DataStore.Live.{IsLive, HasSameMembers, counters_of}

abbrev pub empty_graph : Graph
empty_graph = record { vertices = []; visualisation_pending = false }

module _ {V : Type 0} where
  -- Each member of the graph is counted once more than in `base`.
  abbrev pub IsCounted : Counters → List MemberPtr → DataStore V → Type 0
  IsCounted base ps ds =
      (q : MemberPtr) → counters_of ds q ≡ (if among q ps then increase (base q) else base q)

  -- The calls of `add` for some members.
  abbrev pub add_all : List MemberPtr → Graph → DataStore V → Outcome (Graph × DataStore V)
  add_all [] g ds = ok (g, ds)
  add_all (p ∷ ps) g ds = do (g', ds', added) ← add p g ds; add_all ps g' ds'

  -- The graph counts its members, which stay.
  abbrev Counts : Counters → DataStore V → Graph × DataStore V → Type 0
  Counts base ds (g, ds') =
      IsDistinct g.vertices
      × HasSameMembers ds ds'
      × IsCounted base g.vertices ds'
      × ((q : MemberPtr) → among q g.vertices ≡ true → IsLive ds' q)
