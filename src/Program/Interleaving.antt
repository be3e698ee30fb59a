-- ===== src/Program/Interleaving.antt =====
-- What the turns of the building and of the detecting thread ask of the members before the
-- stored ones (main.cpp, dynamic-subgraph.cpp, fault-detection.cpp).
pub mod Building
use stream_fdl.Prelude.{
  ℕ, ◌≡◌, refl, ◌∙◌, subst, inl, inr, Bool, true, false, Option, none, some, List, [], ◌∷◌, arith,
  str_eq, ◌==◌, ==_iff, Bool-cases, any,
}
use stream_fdl.Prelude.All.{All, All-map}
use stream_fdl.Prelude.Double.{Double}
use stream_fdl.MemberPtr.{MemberPtr}
use stream_fdl.Members.{PrimaryKey, Proxies, Member, node, topic}
use stream_fdl.Graph.Vertices.{among}
use stream_fdl.Graph.Edges.{Reads}
use stream_fdl.DataStore.{Channel, DataStore, member_at}
use stream_fdl.DataStore.Live.{IsLive}
use stream_fdl.Watchlist.{Watchlist, InternalMembers}
use stream_fdl.Watchlist.Adding.{AreLive, has_key, is_watched}
use stream_fdl.FaultDetection.{Alert}
use stream_fdl.FaultDetection.Delivery
use stream_fdl.FaultDetection.Ready.{AreAlerts, outline, HasSameOutlines}
use stream_fdl.DynamicSubgraph.Unwatched.{NoneWatched, AreExpandable, before_member}

-- Whether the key of an outline is the one given.
abbrev has_outline : PrimaryKey → Option (PrimaryKey × Proxies) → Bool
has_outline key none = false
has_outline key (some (k, before)) = str_eq k key

module _ {V : Type 0} where
  -- None of the members before a stored one is on the watchlist.
  abbrev AreFree : DataStore V → InternalMembers → Option (PrimaryKey × Proxies) → Type 0
  AreFree ds ms none = Unit {0}
  AreFree ds ms (some (key, before)) = All (λ e. is_watched ds e.primary_key ms ≡ false) before

  abbrev pub IsFree : DataStore V → InternalMembers → Type 0
  IsFree ds ms = (q : MemberPtr) → AreFree ds ms (outline (member_at ds q))

  has_key-outline :
      (key : PrimaryKey) (m : Option (Member V)) → has_key key m ≡ has_outline key (outline m)
  has_key-outline key none = refl
  has_key-outline key (some m) = refl

  is_watched-outlines :
      (ds ds' : DataStore V) (key : PrimaryKey) (ms : InternalMembers)
      → HasSameOutlines ds ds'
      → is_watched ds' key ms ≡ is_watched ds key ms
  is_watched-outlines ds ds' key [] same = refl
  is_watched-outlines ds ds' key ((p, t) ∷ ms) same =
      rw
        (
          has_key-outline key (member_at ds' p),
          has_key-outline key (member_at ds p),
          same p,
          is_watched-outlines ds ds' key ms same,
        )
        refl

  AreFree-outlines :
      (ds ds' : DataStore V) (ms : InternalMembers) (o : Option (PrimaryKey × Proxies))
      → HasSameOutlines ds ds'
      → AreFree ds ms o
      → AreFree ds' ms o
  AreFree-outlines ds ds' ms none same free = tt
  AreFree-outlines ds ds' ms (some (key, before)) same free =
      All-map _ _ before (λ e out. is_watched-outlines ds ds' e.primary_key ms same ∙ out) free

  pub IsFree-outlines :
      (ds ds' : DataStore V) (ms : InternalMembers)
      → HasSameOutlines ds ds'
      → IsFree ds ms
      → IsFree ds' ms
  IsFree-outlines ds ds' ms same free q =
      rw (same q) (AreFree-outlines ds ds' ms (outline (member_at ds q)) same (free q))

  All-unwatched :
      (ds : DataStore V) (es : Proxies) → All (λ e. is_watched ds e.primary_key [] ≡ false) es
  All-unwatched ds [] = tt
  All-unwatched ds (e ∷ es) = (refl, All-unwatched ds es)

  AreFree-empty : (ds : DataStore V) (o : Option (PrimaryKey × Proxies)) → AreFree ds [] o
  AreFree-empty ds none = tt
  AreFree-empty ds (some (key, before)) = All-unwatched ds before

  -- Nothing is before a member where nothing is watched.
  pub IsFree-empty : (ds : DataStore V) → IsFree ds []
  IsFree-empty ds q = AreFree-empty ds (outline (member_at ds q))

  -- The vertices point at members.
  abbrev pub HasVertices : DataStore V → List MemberPtr → Type 0
  HasVertices ds ps = (q : MemberPtr) → among q ps ≡ true → IsLive ds q

  pub HasVertices-Reads :
      (ds : DataStore V) (ps : List MemberPtr)
      → HasVertices ds ps
      → (ms : List (Member V)) × Reads (member_at ds) ps ms
  HasVertices-Reads ds [] live = ([], tt)
  HasVertices-Reads ds (p ∷ ps) live =
      let (m, at) = live p (ground arith) in
      let (ms, reads) = HasVertices-Reads ds ps (λ q inside. live q (ground arith)) in
      (m ∷ ms, (at, reads))

  pub AreAlerts-Delivery :
      (ds : DataStore V) (alerts : List Alert) → AreAlerts ds alerts → Delivery.AreLive ds alerts
  AreAlerts-Delivery ds [] live = tt
  AreAlerts-Delivery ds (a ∷ alerts) (l, live) = (l, AreAlerts-Delivery ds alerts live)

  pub AreAlerts-any :
      (ds : DataStore V) (alerts : List Alert) (q : MemberPtr)
      → AreAlerts ds alerts
      → any (λ a. a.member == q) alerts ≡ true
      → IsLive ds q
  AreAlerts-any ds [] q live found = cc
  AreAlerts-any ds (a ∷ alerts) q (l, live) found = elim (Bool-cases (a.member == q)) [
    | inl i ↦ subst (IsLive ds) ((==_iff a.member q).0 i) l
    | inr o ↦ AreAlerts-any ds alerts q live (ground arith)
  ]

module _ (d : Double) (ch : Channel d.Value) (rounds : ℕ) (w : Watchlist) (ds : DataStore d.Value)
    (live : AreLive ds w.members) where
  All-NoneWatched :
      (es : Proxies)
      → All (λ e. is_watched ds e.primary_key w.members ≡ false) es
      → NoneWatched d ch rounds w ds live es
  All-NoneWatched [] free = tt
  All-NoneWatched (e ∷ es) (out, free) = (out, All-NoneWatched es free)

  free_before :
      (m : Member d.Value)
      → AreFree ds w.members (outline (some m))
      → NoneWatched d ch rounds w ds live (before_member d ch rounds w ds live m)
  free_before (topic t) free = All-NoneWatched _ free
  free_before (node n) free = All-NoneWatched _ free

  pub IsFree-AreExpandable :
      (alerts : List Alert)
      → IsFree ds w.members
      → AreAlerts ds alerts
      → AreExpandable d ch rounds w ds live alerts
  IsFree-AreExpandable [] free alive = tt
  IsFree-AreExpandable (a ∷ alerts) free ((m, at), alive) = (
    (m, at, free_before m (subst (λ o. AreFree ds w.members (outline o)) at (free a.member))),
    IsFree-AreExpandable alerts free alive,
  )
