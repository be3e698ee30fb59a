-- ===== src/Blindspots/Counts.antt =====
-- How often a key stands among the vertices of a graph and among the blind spots.
use stream_fdl.Prelude.{
  ℕ, suc, ◌+◌, ◌≡◌, refl, inl, inr, Bool, true, false, ◌&&◌, some, [], ◌∷◌, ◌++◌, arith, str_eq,
  if◌then◌else◌, Option-cases, length,
}
use stream_fdl.Members.{PrimaryKey, MemberProxy, Proxies}
use stream_fdl.GraphView.{MemberConnections, GraphView}
use stream_fdl.Blindspots.{take_vertex, take_back}

abbrev pub one_if : Bool → ℕ
one_if b = if b then 1 else 0

abbrev pub count_proxy : PrimaryKey → Proxies → ℕ
count_proxy k [] = 0
count_proxy k (p ∷ ps) = one_if (str_eq p.primary_key k) + count_proxy k ps

abbrev pub has_key : PrimaryKey → MemberConnections → Bool
has_key k v = str_eq v.member.primary_key k

abbrev pub is_leaf : MemberConnections → Bool
is_leaf v = elim v.connections [ [] ↦ true | e ∷ es ↦ false ]

abbrev pub count_vertices : PrimaryKey → GraphView → ℕ
count_vertices k [] = 0
count_vertices k (v ∷ g) = one_if (has_key k v) + count_vertices k g

-- Among them, those from which no edge leads on.
abbrev pub count_leaves : PrimaryKey → GraphView → ℕ
count_leaves k [] = 0
count_leaves k (v ∷ g) = one_if (is_leaf v && has_key k v) + count_leaves k g

pub count_proxy-snoc :
    (k : PrimaryKey) (ps : Proxies) (p : MemberProxy)
    → count_proxy k (ps ++ p ∷ []) ≡ count_proxy k ps + one_if (str_eq p.primary_key k)
count_proxy-snoc k [] p = omega arith
count_proxy-snoc k (q ∷ ps) p = omega (arith, count_proxy-snoc k ps p)

-- Taking `v` out of `g` leaves `g'`.
abbrev pub Takes : PrimaryKey → GraphView → MemberConnections → GraphView → Type 0
Takes k g v g' =
    (length g ≡ suc (length g'))
    × (count_vertices k g ≡ one_if (has_key k v) + count_vertices k g')
    × (count_leaves k g ≡ one_if (is_leaf v && has_key k v) + count_leaves k g')

pub take_vertex-Takes :
    (k : PrimaryKey) (e : MemberProxy) (g : GraphView) (v : MemberConnections) (g' : GraphView)
    → take_vertex e g ≡ some (v, g')
    → Takes k g v g'
unfolding take_vertex
take_vertex-Takes k e [] v g' h = cc
take_vertex-Takes k e (w ∷ g) v g' h = elim (Option-cases (take_vertex e g)) [
  | inl absent ↦ ground arith
  | inr ((u, g''), there) ↦ ground (arith, take_vertex-Takes k e g u g'' there)
]

pub take_back-Takes :
    (k : PrimaryKey) (v : MemberConnections) (g : GraphView)
    → Takes k (v ∷ g) (take_back v g).0 (take_back v g).1
unfolding take_back
take_back-Takes k v [] = (refl, refl, refl)
take_back-Takes k v (w ∷ g) =
    let (a, b, c) = take_back-Takes k w g in (omega arith, omega arith, omega arith)
