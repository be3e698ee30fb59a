-- ===== src/Examples/Counting.antt =====
-- The counters of the members in the graph at concrete inputs.
use stream_fdl.Prelude.{List, [], ◌∷◌}
use stream_fdl.DataStore.{DataStore}
use stream_fdl.MemberPtr.{MemberPtr}
use stream_fdl.Graph
use stream_fdl.Graph.{Graph}

abbrev repeated : List MemberPtr
repeated = 2 ∷ 1 ∷ 2 ∷ []
