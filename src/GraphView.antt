-- ===== src/GraphView.antt =====
-- `DataStore::GraphView` of data-store.hpp, and the pending updates that `addSubUpdate`,
-- `addSendUpdate` and `addPubUpdate` of data-store.cpp gather in one until `getUpdates` takes them.
use stream_fdl.Prelude.{
  ◌+◌, true, false, Option, none, some, List, [], ◌∷◌, ◌++◌, str_eq, if◌then◌else◌,
}
pub mod Pending
pub mod Full
use stream_fdl.Members.{PrimaryKey, MemberProxy, proxy, Proxies}

pub record MemberConnections : Type 0 where
  pub member : MemberProxy
  pub connections : Proxies

abbrev pub GraphView : Type 0
GraphView = List MemberConnections

abbrev pub vertex : MemberProxy → Proxies → MemberConnections
vertex m cs = record { member = m; connections = cs }

-- A write through the iterator that `find_if` returns for a key: `none` if that is `end()`.
unfoldable pub connect_to : PrimaryKey → MemberProxy → GraphView → Option GraphView
connect_to key other [] = none
connect_to key other (v ∷ g) =
    let rest = connect_to key other g in
    if str_eq v.member.primary_key key
    then some (record v { connections = v.connections ++ other ∷ [] } ∷ g)
    else elim rest [ none ↦ none | some g' ↦ some (v ∷ g') ]

-- The part that the three methods share: `affected` gets the connection `other`.
unfoldable pub add_update : (affected other : MemberProxy) → GraphView → GraphView
unfolding connect_to
add_update affected other updates = elim (connect_to affected.primary_key other updates) [
  | none ↦ updates ++ vertex affected (other ∷ []) ∷ []
  | some updates' ↦ updates'
]

unfoldable pub add_sub_update : (affected other : PrimaryKey) → GraphView → GraphView
add_sub_update affected other = add_update (proxy affected false) (proxy other true)

unfoldable pub add_send_update : (affected other : PrimaryKey) → GraphView → GraphView
add_send_update affected other = add_update (proxy affected false) (proxy other false)

unfoldable pub add_pub_update : (affected other : PrimaryKey) → GraphView → GraphView
add_pub_update affected other = add_update (proxy affected true) (proxy other false)

-- `getUpdates`: the updates, and what is left of them.
unfoldable pub get_updates : GraphView → GraphView × GraphView
get_updates updates = ([] ++ updates, [])
