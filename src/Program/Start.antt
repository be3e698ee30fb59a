-- ===== src/Program/Start.antt =====
-- The start of the program (main.cpp), up to the first round of its threads.
use stream_fdl.Prelude.{String, Option, none, some, List}
use stream_fdl.Prelude.Double.{Double}
use stream_fdl.CircularBuffer
use stream_fdl.DataStore.{DataStore}
use stream_fdl.Watchlist.Runs.{IsSingle}
use stream_fdl.DynamicSubgraph.Start.{make_watchlist}

pub make_watchlist-IsSingle :
    (names : Option (List String)) → IsSingle (make_watchlist names).members
unfolding make_watchlist
make_watchlist-IsSingle none = tt
make_watchlist-IsSingle (some names) = tt
