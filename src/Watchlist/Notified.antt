-- ===== src/Watchlist/Notified.antt =====
-- `notifyUsed` of watchlist.cpp on a watchlist whose members are initial ones.
use stream_fdl.Prelude.{◌≡◌, inl, inr, false, ok}
use stream_fdl.Members.{PrimaryKey}
use stream_fdl.DataStore.{DataStore}
use stream_fdl.Watchlist.{Watchlist, notify_used}
use stream_fdl.Watchlist.Runs.{IsSingle, find_key-initial}
use stream_fdl.Watchlist.Adding.{AreLive, find_key-is_watched}

-- It returns, and changes nothing.
pub notify_used-unused :
    {V : Type 0} (key : PrimaryKey) (w : Watchlist) (ds : DataStore V)
    → IsSingle w.members
    → AreLive ds w.members
    → notify_used key w ds ≡ ok (w, ds, false)
unfolding notify_used
notify_used-unused key w ds single live = elim (find_key-is_watched ds key w.members live) [
  | inl (missing, result) ↦ rw result
  | inr (watched, ((p, t), result)) ↦
      let first = find_key-initial ds key w.members p t single result in rw (result, first)
]
