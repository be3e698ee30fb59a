-- ===== src/DynamicSubgraph/Spots.antt =====
-- The outcome of `blindSpotCheck` of dynamic-subgraph.cpp.
use stream_fdl.Prelude.{
  ℕ, ◌≡◌, refl, ◌∙◌, ◌⊎◌, inl, inr, Bool, false, not, ◌&&◌, [], ◌∷◌, arith, ◌==◌, if◌then◌else◌,
  Bool-cases, any, assertion, ok, fault,
}
use stream_fdl.Prelude.Double.{Double}
use stream_fdl.DoubleLinkedList.{null}
use stream_fdl.Members.{MemberProxy, Proxies}
use stream_fdl.GraphView.{GraphView}
use stream_fdl.GraphView.Full.{QueryResult, get_full_graph_view}
use stream_fdl.Blindspots.{get_blindspots}
use stream_fdl.DataStore.{Channel, DataStore, check_topic_primary_ignored}
use stream_fdl.DataStore.Found.{found_at}
use stream_fdl.DataStore.Messages.Round.{View, IsView}
use stream_fdl.Watchlist.{Watchlist, WatchlistMemberType, add_member}
use stream_fdl.Watchlist.Adding.{AreLive, is_watched, add_member-unwatched, add_member-outcome}
use stream_fdl.DynamicSubgraph.{add_members, blind_spot_check}

and_false : (b c : Bool) → c ≡ false → (b && c) ≡ false
and_false b c e = ground (arith, e)

module _ (d : Double) (ch : Channel d.Value) (rounds : ℕ) (w : Watchlist)
    (ds : DataStore d.Value) where
  -- A member that is watched, and no ignored topic.
  abbrev pub is_refused : MemberProxy → Bool
  is_refused m =
      not (m.is_topic && check_topic_primary_ignored ds m.primary_key)
      && is_watched ds m.primary_key w.members

  -- The members that are watched are in the store.
  abbrev pub AreKnown : View d.Value → Proxies → Type 0
  AreKnown a [] = Unit {0}
  AreKnown a (m ∷ ms) =
      ((is_watched ds m.primary_key w.members ≡ false) ⊎ ((found_at m a == null) ≡ false))
      × AreKnown a ms

  add_known :
      (a : View d.Value) (m : MemberProxy) (t : WatchlistMemberType)
      → IsView rounds ds a
      → AreLive ds w.members
      → (is_watched ds m.primary_key w.members ≡ false) ⊎ ((found_at m a == null) ≡ false)
      → add_member ch rounds m t w ds ≡ (if is_refused m then fault assertion else ok (w, ds))
  add_known a m t is live (inl missing) =
      add_member-unwatched ch rounds m t w ds live missing ∙ rw (and_false _ _ missing) refl
  add_known a m t is live (inr there) = add_member-outcome ch rounds m t w ds a is there live

  add_members-outcome :
      (a : View d.Value) (ms : Proxies) (t : WatchlistMemberType)
      → IsView rounds ds a
      → AreLive ds w.members
      → AreKnown a ms
      → add_members d ch rounds ms t w ds
        ≡ (if any is_refused ms then fault assertion else ok (w, ds))
  unfolding add_members
  add_members-outcome a [] t is live known = refl
  add_members-outcome a (m ∷ ms) t is live (k, known) = elim (Bool-cases (is_refused m)) [
    | inl refused ↦ rw (add_known a m t is live k, refused)
    | inr fine ↦ rw (add_known a m t is live k, fine) (add_members-outcome a ms t is live known)
  ]

  -- On a well-formed store, where each watched handle points at a member, and the blind spots of the
  -- full graph that are watched are in the store: the check for blind spots fails its assertion when
  -- one of them, no ignored topic, is watched already, and changes nothing otherwise. It never puts
  -- a blind spot on the watchlist.
  pub blind_spot_check-outcome :
      (a : View d.Value) (q : QueryResult) (g : GraphView) (spots : Proxies)
      → get_full_graph_view (check_topic_primary_ignored ds) q ≡ ok g
      → get_blindspots g ≡ ok spots
      → IsView rounds ds a
      → AreLive ds w.members
      → AreKnown a spots
      → blind_spot_check d ch rounds q w ds
        ≡ (if any is_refused spots then fault assertion else ok (w, ds))
  unfolding blind_spot_check
  blind_spot_check-outcome a q g spots viewed found is live known =
      rw (viewed, found) (add_members-outcome a spots _ is live known)
