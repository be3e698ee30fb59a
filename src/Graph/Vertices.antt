-- ===== src/Graph/Vertices.antt =====
-- `add` of graph.cpp: the vertices are a set.
use stream_fdl.Prelude.{
  ◌≡◌, refl, subst, inl, inr, Bool, true, false, ◌||◌, List, [], ◌∷◌, ◌++◌, arith, ◌==◌, ==_iff,
  Bool-cases, any, if◌then◌else◌,
}
use stream_fdl.Prelude.After.{After, >>=-After}
use stream_fdl.AtomicCounter.{increase, decrease}
use stream_fdl.MemberPtr.{MemberPtr}
use stream_fdl.DataStore.{DataStore, adjust_counter}
use stream_fdl.Graph.{Graph, add, destroy_vertices, reset}

abbrev pub among : MemberPtr → List MemberPtr → Bool
among p = any (λ existing. existing == p)

-- No vertex occurs twice.
abbrev pub IsDistinct : List MemberPtr → Type 0
IsDistinct [] = Unit {0}
IsDistinct (p ∷ ps) = (among p ps ≡ false) × IsDistinct ps

pub among-append :
    (p : MemberPtr) (xs ys : List MemberPtr) → among p (xs ++ ys) ≡ (among p xs || among p ys)
among-append p [] ys = refl
among-append p (x ∷ xs) ys = ground (arith, among-append p xs ys)

pub IsDistinct-snoc :
    (p : MemberPtr) (xs : List MemberPtr)
    → among p xs ≡ false
    → IsDistinct xs
    → IsDistinct (xs ++ p ∷ [])
IsDistinct-snoc p [] out d = (refl, tt)
IsDistinct-snoc p (x ∷ xs) out d =
    (ground (arith, among-append x xs (p ∷ [])), IsDistinct-snoc p xs (ground arith) d.1)

pub already :
    (p q : MemberPtr) (xs : List MemberPtr)
    → among p xs ≡ true
    → among q xs ≡ ((p == q) || among q xs)
already p q xs e = elim (Bool-cases (p == q)) [
  | inl i ↦ rw i (subst (λ r. among r xs ≡ true) ((==_iff p q).0 i) e)
  | inr o ↦ rw o
]

-- The graph with the member, and whether it is new.
abbrev pub with_vertex : MemberPtr → Graph → Graph × Bool
with_vertex p g =
    if among p g.vertices then (g, false) else (record g { vertices = g.vertices ++ p ∷ [] }, true)

-- The graph with a member has exactly the earlier ones and that one, and none twice.
pub with_vertex-IsDistinct :
    (p : MemberPtr) (g : Graph)
    → IsDistinct g.vertices
    → ((q : MemberPtr) → among q (with_vertex p g).0.vertices ≡ ((p == q) || among q g.vertices))
      × IsDistinct (with_vertex p g).0.vertices
with_vertex-IsDistinct p g d = elim (Bool-cases (among p g.vertices)) [
  | inl e ↦ rw e (λ q. already p q g.vertices e, d)
  | inr e ↦ rw e (
    λ q. rw (among-append q g.vertices (p ∷ [])) (ground arith),
    IsDistinct-snoc p g.vertices e d,
  )
]

-- `add` returns the graph with the member; the store is changed by the copy of the handle alone.
pub add-After :
    {V : Type 0} (F : Type 0) (Q : DataStore V → Type 0) (p : MemberPtr) (g : Graph)
    (ds : DataStore V)
    → Q ds
    → After F Q (adjust_counter increase p ds)
    → After F (λ r. (r.0 ≡ (with_vertex p g).0) × (r.2 ≡ (with_vertex p g).1) × Q r.1) (add p g ds)
unfolding add
add-After F Q p g ds same copied = elim (Bool-cases (among p g.vertices)) [
  | inl e ↦ rw e (refl, refl, same)
  | inr e ↦ rw e (>>=-After F _ (adjust_counter increase p ds) _ copied (λ ds' q. (refl, refl, q)))
]

-- So does the destruction of all vertices.
destroy_vertices-After :
    {V : Type 0} (F : Type 0) (Q : DataStore V → Type 0) (ps : List MemberPtr) (ds : DataStore V)
    → ((p : MemberPtr) (ds₁ : DataStore V)
        → among p ps ≡ true
        → Q ds₁
        → After F Q (adjust_counter decrease p ds₁))
    → Q ds
    → After F Q (destroy_vertices ps ds)
unfolding destroy_vertices
destroy_vertices-After F Q [] ds destroys q = q
destroy_vertices-After F Q (p ∷ ps) ds destroys q =
    >>=-After F _ (adjust_counter decrease p ds) _ (destroys p ds (ground arith) q) (λ ds' q'.
      destroy_vertices-After F Q ps ds' (λ r ds₁ inside. destroys r ds₁ (ground arith)) q')

-- `reset` leaves no vertex.
pub reset-After :
    {V : Type 0} (F : Type 0) (Q : DataStore V → Type 0) (g : Graph) (ds : DataStore V)
    → ((p : MemberPtr) (ds₁ : DataStore V)
        → among p g.vertices ≡ true
        → Q ds₁
        → After F Q (adjust_counter decrease p ds₁))
    → Q ds
    → After F (λ r. (r.0.vertices ≡ []) × Q r.1) (reset g ds)
unfolding reset
reset-After F Q g ds destroys q =
    >>=-After F _ (destroy_vertices g.vertices ds) _
      (destroy_vertices-After F Q g.vertices ds destroys q) (λ ds' q'. (refl, q'))
