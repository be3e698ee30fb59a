-- ===== src/FaultDetection/Ready.antt =====
-- The handles and windows that a round of fault-detection.cpp works on, while it works.
pub mod Attributes
pub mod Windows
pub mod Checking
pub mod Round
use stream_fdl.Prelude.{List, [], ◌∷◌, Option, none, some, ap, ◌++◌, map, ◌≡◌, refl, ◌∙◌}
use stream_fdl.Prelude.After.{Any, After, After-ok}
use stream_fdl.Prelude.All.{All, All-map}
use stream_fdl.AtomicCounter.{AtomicCounter}
use stream_fdl.MemberPtr.{MemberPtr}
use stream_fdl.Members.{PrimaryKey, Proxies, Member, node, topic, base_of}
use stream_fdl.DataStore.{Channel, DataStore, member_at, adjust_counter}
use stream_fdl.DataStore.Live.{IsLive, IsLive-same, adjust_counter-HasSameMembers}
use stream_fdl.DataStore.Typed.{IsTyped, adjust_counter-After}
use stream_fdl.Watchlist.{InternalMembers}
use stream_fdl.Watchlist.Adding.{AreLive}
use stream_fdl.FaultDetection.{Alert}

-- The members of the alerts exist.
abbrev pub AreAlerts : {V : Type 0} → DataStore V → List Alert → Type 0
AreAlerts ds alerts = All (λ a. IsLive ds a.member) alerts

-- The key of a member, and the members before it.
abbrev pub before_of : {V : Type 0} → Member V → Proxies
before_of (topic t) = map (λ e. e.associated_node) t.publishers
before_of (node n) = map (λ s. s.1) n.servers ++ (map (λ s. s.1) n.action_servers ++ n.publishes_to)

abbrev pub outline : {V : Type 0} → Option (Member V) → Option (PrimaryKey × Proxies)
outline none = none
outline (some m) = some ((base_of m).primary_key, before_of m)

-- Behind each handle is a member of the same outline.
abbrev pub HasSameOutlines : {V : Type 0} → DataStore V → DataStore V → Type 0
HasSameOutlines ds ds' = (q : MemberPtr) → outline (member_at ds' q) ≡ outline (member_at ds q)

module _ {V : Type 0} (ch : Channel V) where
  -- The store may change, but no handle loses its member, and the outlines stay.
  abbrev pub Goes : DataStore V → DataStore V → Type 0
  Goes ds ds' =
      IsTyped ch ds' × ((q : MemberPtr) → IsLive ds q → IsLive ds' q) × HasSameOutlines ds ds'

  pub Goes-refl : (ds : DataStore V) → IsTyped ch ds → Goes ds ds
  Goes-refl ds typed = (typed, λ q live. live, λ q. refl)

  pub Goes-trans : (ds ds' ds'' : DataStore V) → Goes ds ds' → Goes ds' ds'' → Goes ds ds''
  Goes-trans ds ds' ds'' (typed, lives, same) (typed', lives', same') =
      (typed', (λ q live. lives' q (lives q live)), λ q. same' q ∙ same q)

  pub AreLive-Goes :
      (ds ds' : DataStore V) (ms : InternalMembers) → Goes ds ds' → AreLive ds ms → AreLive ds' ms
  AreLive-Goes ds ds' [] goes live = tt
  AreLive-Goes ds ds' ((p, t) ∷ ms) goes (n, at, live) =
      (n, goes.1 p at, AreLive-Goes ds ds' ms goes live)

  pub AllLive-Goes :
      {A : Type 0} (handle : A → MemberPtr) (ds ds' : DataStore V) (xs : List A)
      → Goes ds ds'
      → All (λ x. IsLive ds (handle x)) xs
      → All (λ x. IsLive ds' (handle x)) xs
  AllLive-Goes handle ds ds' xs goes = All-map _ _ xs (λ x live. goes.1 (handle x) live)

  pub adjust_counter-Goes :
      (f : AtomicCounter → AtomicCounter) (p : MemberPtr) (ds : DataStore V)
      → IsTyped ch ds
      → IsLive ds p
      → After ⊥ (Goes ds) (adjust_counter f p ds)
  adjust_counter-Goes f p ds typed live =
      let (ds', done, same) = adjust_counter-HasSameMembers f p ds live in
      rw done (
        After-ok Any (IsTyped ch) _ ds' (adjust_counter-After ch f p ds typed) done,
        (λ q at. IsLive-same ds ds' q same at),
        λ q. ap outline (same q),
      )
