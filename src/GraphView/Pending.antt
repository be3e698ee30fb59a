-- ===== src/GraphView/Pending.antt =====
-- What the pending updates hold after any sequence of them (data-store.cpp).
use stream_fdl.Prelude.{
  ℕ, suc, ◌+◌, ◌≤◌, ◌≡◌, refl, inl, inr, none, some, List, [], ◌∷◌, ◌++◌, arith, str_eq, str_eq_iff,
  if◌then◌else◌, Bool-cases, Option-cases,
}
use mathlib.Core.List.{append-nil, append_assoc}
use stream_fdl.Members.{PrimaryKey, MemberProxy, Proxies}
use stream_fdl.GraphView.{MemberConnections, GraphView, vertex, connect_to, add_update, get_updates}

-- The connections of the first vertex with the key.
unfoldable pub connections_of : PrimaryKey → GraphView → Proxies
connections_of key [] = []
connections_of key (v ∷ g) =
    if str_eq v.member.primary_key key then v.connections else connections_of key g

unfoldable pub count_key : PrimaryKey → GraphView → ℕ
count_key key [] = 0
count_key key (v ∷ g) =
    if str_eq v.member.primary_key key then suc (count_key key g) else count_key key g

-- A sequence of updates: who is affected, and the other end.
unfoldable pub add_updates : List (MemberProxy × MemberProxy) → GraphView → GraphView
add_updates [] g = g
add_updates ((affected, other) ∷ us) g = add_updates us (add_update affected other g)

-- The other ends of the updates that affect a key, in order.
unfoldable pub others_of : PrimaryKey → List (MemberProxy × MemberProxy) → Proxies
others_of key [] = []
others_of key ((affected, other) ∷ us) =
    if str_eq affected.primary_key key then other ∷ others_of key us else others_of key us

abbrev pub new_end : PrimaryKey → PrimaryKey → MemberProxy → Proxies
new_end key k other = if str_eq k key then other ∷ [] else []

connections_of-append_new :
    (key : PrimaryKey) (m other : MemberProxy) (g : GraphView)
    → connect_to m.primary_key other g ≡ none
    → connections_of key (g ++ vertex m (other ∷ []) ∷ [])
      ≡ connections_of key g ++ new_end key m.primary_key other
unfolding connections_of connect_to
connections_of-append_new key m other [] absent = refl
connections_of-append_new key m other (v ∷ g) absent = ground (
  arith,
  connections_of-append_new key m other g,
  str_eq_iff v.member.primary_key key,
  str_eq_iff v.member.primary_key m.primary_key,
  str_eq_iff m.primary_key key,
  append-nil v.connections,
)

pub connections_of-connect_to :
    (key k : PrimaryKey) (other : MemberProxy) (g g' : GraphView)
    → connect_to k other g ≡ some g'
    → connections_of key g' ≡ connections_of key g ++ new_end key k other
unfolding connections_of connect_to
connections_of-connect_to key k other [] g' h = cc
connections_of-connect_to key k other (v ∷ g) g' h = elim (Option-cases (connect_to k other g)) [
  | inl e ↦ ground (
    arith,
    str_eq_iff v.member.primary_key key,
    str_eq_iff v.member.primary_key k,
    str_eq_iff k key,
    append-nil v.connections,
    append-nil (connections_of key g),
  )
  | inr (g'', e) ↦ ground (
    arith,
    connections_of-connect_to key k other g g'' e,
    str_eq_iff v.member.primary_key key,
    str_eq_iff v.member.primary_key k,
    str_eq_iff k key,
    append-nil v.connections,
    append-nil (connections_of key g),
  )
]

connections_of-add_update :
    (key : PrimaryKey) (m other : MemberProxy) (g : GraphView)
    → connections_of key (add_update m other g)
      ≡ connections_of key g ++ new_end key m.primary_key other
unfolding add_update
connections_of-add_update key m other g = elim (Option-cases (connect_to m.primary_key other g)) [
  | inl e ↦ rw (e, add_update) (connections_of-append_new key m other g e)
  | inr (g', e) ↦ rw (e, add_update) (connections_of-connect_to key m.primary_key other g g' e)
]

connections_of-add_updates :
    (key : PrimaryKey) (us : List (MemberProxy × MemberProxy)) (g : GraphView)
    → connections_of key (add_updates us g) ≡ connections_of key g ++ others_of key us
unfolding add_updates others_of
connections_of-add_updates key [] g = rw append-nil
connections_of-add_updates key ((m, other) ∷ us) g =
    rw
      (
        connections_of-add_updates key us (add_update m other g),
        connections_of-add_update key m other g,
      )
      (elim (Bool-cases (str_eq m.primary_key key)) [
        | inl e ↦ rw (e, append_assoc)
        | inr e ↦ rw (e, append-nil)
      ])

count_key-absent :
    (k : PrimaryKey) (other : MemberProxy) (g : GraphView)
    → connect_to k other g ≡ none
    → count_key k g ≡ 0
unfolding count_key connect_to
count_key-absent k other [] h = refl
count_key-absent k other (v ∷ g) h = ground (arith, count_key-absent k other g)

count_key-snoc :
    (key : PrimaryKey) (g : GraphView) (v : MemberConnections)
    → count_key key (g ++ v ∷ [])
      ≡ count_key key g + (if str_eq v.member.primary_key key then 1 else 0)
unfolding count_key
count_key-snoc key [] v = ground arith
count_key-snoc key (w ∷ g) v = ground (arith, count_key-snoc key g v)

count_key-connect_to :
    (key k : PrimaryKey) (other : MemberProxy) (g g' : GraphView)
    → connect_to k other g ≡ some g'
    → count_key key g' ≡ count_key key g
unfolding count_key connect_to
count_key-connect_to key k other [] g' h = cc
count_key-connect_to key k other (v ∷ g) g' h = elim (Option-cases (connect_to k other g)) [
  | inl e ↦ ground arith
  | inr (g'', e) ↦ ground (arith, count_key-connect_to key k other g g'' e)
]

count_key-add_update :
    (key : PrimaryKey) (m other : MemberProxy) (g : GraphView)
    → count_key key g ≤ 1
    → count_key key (add_update m other g) ≤ 1
unfolding add_update
count_key-add_update key m other g one = elim (Option-cases (connect_to m.primary_key other g)) [
  | inl e ↦
      rw (e, add_update)
        (ground (
          arith,
          count_key-snoc key g (vertex m (other ∷ [])),
          count_key-absent m.primary_key other g e,
          str_eq_iff m.primary_key key,
        ))
  | inr (g', e) ↦
      rw (e, add_update) (ground (arith, count_key-connect_to key m.primary_key other g g' e))
]

count_key-add_updates :
    (key : PrimaryKey) (us : List (MemberProxy × MemberProxy)) (g : GraphView)
    → count_key key g ≤ 1
    → count_key key (add_updates us g) ≤ 1
unfolding add_updates
count_key-add_updates key [] g one = one
count_key-add_updates key ((m, other) ∷ us) g one =
    count_key-add_updates key us (add_update m other g) (count_key-add_update key m other g one)

-- After any sequence of updates from none, `getUpdates` returns at most one vertex for each key,
-- with the other ends of all updates that affect the key, in order, and leaves nothing pending.
pub get_updates-add_updates :
    (us : List (MemberProxy × MemberProxy)) (key : PrimaryKey)
    → (connections_of key (get_updates (add_updates us [])).0 ≡ others_of key us)
      × (count_key key (get_updates (add_updates us [])).0 ≤ 1)
      × ((get_updates (add_updates us [])).1 ≡ [])
unfolding get_updates others_of connections_of
get_updates-add_updates us key =
    (connections_of-add_updates key us [], count_key-add_updates key us [] (zero_le_one key), refl)
  where
    zero_le_one : (k : PrimaryKey) → count_key k [] ≤ 1
    zero_le_one k = unfold count_key in omega arith
