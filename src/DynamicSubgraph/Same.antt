-- ===== src/DynamicSubgraph/Same.antt =====
-- What dynamic-subgraph.cpp reads of the members behind handles does not depend on their use counters.
use stream_fdl.Prelude.{
  Bool-cases, ==_iff, ◌==◌, true, inl, inr, ◌≡◌, refl, sym, ◌∙◌, subst, fun_ext, List, [], ◌∷◌,
  arith,
}
use stream_fdl.Prelude.After.{After, >>=-After, After-map}
use stream_fdl.AtomicCounter.{AtomicCounter, decrease}
use stream_fdl.MemberPtr.{MemberPtr}
use stream_fdl.Members.{Member, PrimaryKey}
use stream_fdl.Graph.Vertices.{among}
use stream_fdl.Graph.Edges.{Reads}
use stream_fdl.DataStore.{DataStore, member_at, adjust_counter}
use stream_fdl.DataStore.Live.{IsLive, IsLive-same, HasSameMembers, adjust_counter-HasSameMembers}
use stream_fdl.Watchlist.{InternalMembers, destroy_all}
use stream_fdl.Watchlist.Adding.{AreLive, is_watched}

module _ {V : Type 0} where
  pub AreLive-same :
      (ds ds' : DataStore V) (ms : InternalMembers)
      → HasSameMembers ds ds'
      → AreLive ds ms
      → AreLive ds' ms
  AreLive-same ds ds' [] same live = tt
  AreLive-same ds ds' ((p, t) ∷ ms) same (n, l, live) =
      (n, IsLive-same ds ds' p same l, AreLive-same ds ds' ms same live)

  pub Reads-same :
      (ds ds' : DataStore V) (ps : List MemberPtr) (ms : List (Member V))
      → HasSameMembers ds ds'
      → Reads (member_at ds) ps ms
      → Reads (member_at ds') ps ms
  Reads-same ds ds' ps ms same reads = subst (λ deref. Reads deref ps ms) (sym (fun_ext same)) reads

  pub is_watched-same :
      (ds ds' : DataStore V) (key : PrimaryKey) (ms : InternalMembers)
      → HasSameMembers ds ds'
      → is_watched ds' key ms ≡ is_watched ds key ms
  is_watched-same ds ds' key [] same = refl
  is_watched-same ds ds' key ((p, t) ∷ ms) same =
      rw (same p, is_watched-same ds ds' key ms same) refl

  pub adjust_counter-Same :
      (f : AtomicCounter → AtomicCounter) (p : MemberPtr) (ds : DataStore V)
      → IsLive ds p
      → After ⊥ (HasSameMembers ds) (adjust_counter f p ds)
  adjust_counter-Same f p ds live =
      let (ds', done, same) = adjust_counter-HasSameMembers f p ds live in rw done same

  pub destroy_all-Same :
      (ms : InternalMembers) (ds : DataStore V)
      → AreLive ds ms
      → After ⊥ (HasSameMembers ds) (destroy_all ms ds)
  unfolding destroy_all
  destroy_all-Same [] ds live = λ q. refl
  destroy_all-Same ((p, t) ∷ ms) ds (n, l, live) =
      >>=-After ⊥ _ (adjust_counter decrease p ds) _ (adjust_counter-Same decrease p ds l)
        (λ ds' same.
          After-map ⊥ _ _ (destroy_all ms ds')
            (destroy_all-Same ms ds' (AreLive-same ds ds' ms same live))
            (λ ds'' same' q. same' q ∙ same q))

  -- The vertices point at members.
  pub Reads-IsLive :
      (ds : DataStore V) (ps : List MemberPtr) (ms : List (Member V)) (q : MemberPtr)
      → Reads (member_at ds) ps ms
      → among q ps ≡ true
      → IsLive ds q
  Reads-IsLive ds [] ms q reads inside = cc
  Reads-IsLive ds (p ∷ ps) [] q reads inside = absurd reads
  Reads-IsLive ds (p ∷ ps) (m ∷ ms) q (at, reads) inside = elim (Bool-cases (p == q)) [
    | inl i ↦ subst (IsLive ds) ((==_iff p q).0 i) (m, at)
    | inr o ↦ Reads-IsLive ds ps ms q reads (ground arith)
  ]
