-- ===== src/FaultDetection/Delivery.antt =====
-- The alerts of fault-detection.cpp under the two threads that share them: the detection adds to the
-- list and the main loop takes it, each with `mAlertMutex` held, so that a run is a sequence of such
-- steps in any order.
use stream_fdl.Prelude.{
  String, ◌≡◌, refl, sym, ap, ◌∙◌, Bool, true, false, Option, List, [], ◌∷◌, ◌++◌, Outcome, ok,
  ◌>>=◌,
}
use mathlib.Core.List.{append-nil, append_assoc}
use stream_fdl.Prelude.Double.{Double}
use stream_fdl.AtomicCounter.{AtomicCounter, increase, decrease}
use stream_fdl.MemberPtr.{MemberPtr}
use stream_fdl.Members.{Timestamp}
use stream_fdl.Members.Attributes.{Response}
use stream_fdl.DataStore.{DataStore, adjust_counter}
use stream_fdl.DataStore.Live.{IsLive, HasSameMembers, IsLive-same, adjust_counter-HasSameMembers}
use stream_fdl.FaultDetection.{Alert, FaultDetection, adjust_alerts, get_emitted_alerts}
use stream_fdl.FaultDetection.Round.{emit}

module _ {V : Type 0} where
  -- Each alert is about a member that exists.
  abbrev pub AreLive : DataStore V → List Alert → Type 0
  AreLive ds [] = Unit {0}
  AreLive ds (a ∷ as') = IsLive ds a.member × AreLive ds as'

  pub AreLive-same :
      (ds ds' : DataStore V) (as' : List Alert)
      → HasSameMembers ds ds'
      → AreLive ds as'
      → AreLive ds' as'
  AreLive-same ds ds' [] same live = live
  AreLive-same ds ds' (a ∷ as') same (l, live) =
      (IsLive-same ds ds' a.member same l, AreLive-same ds ds' as' same live)

  AreLive-append :
      (ds : DataStore V) (xs : List Alert) (a : Alert)
      → AreLive ds xs
      → IsLive ds a.member
      → AreLive ds (xs ++ a ∷ [])
  AreLive-append ds [] a live l = (l, tt)
  AreLive-append ds (x ∷ xs) a (lx, live) l = (lx, AreLive-append ds xs a live l)

module _ (d : Double) where
  open d use {Value}

  pub adjust_alerts-HasSameMembers :
      (f : AtomicCounter → AtomicCounter) (alerts : List Alert) (ds : DataStore Value)
      → AreLive ds alerts
      → (ds' : DataStore Value) × (adjust_alerts d (λ ds₀ p. adjust_counter f p ds₀) alerts ds
          ≡ ok ds')
        × HasSameMembers ds ds'
  unfolding adjust_alerts
  adjust_alerts-HasSameMembers f [] ds live = (ds, refl, λ q. refl)
  adjust_alerts-HasSameMembers f (a ∷ as') ds (l, live) =
      let (ds₁, done, same) = adjust_counter-HasSameMembers f a.member ds l in
      let (ds₂, done', same') =
        adjust_alerts-HasSameMembers f as' ds₁ (AreLive-same ds ds₁ as' same live) in
      (ds₂, rw (done, done'), λ q. same' q ∙ same q)

  -- Where the pending alerts are about members that exist, `getEmittedAlerts` returns them all, in
  -- the order of their detection, keeps none, and changes no member.
  pub get_emitted_alerts-all :
      (fd : FaultDetection d) (ds : DataStore Value)
      → AreLive ds fd.alerts
      → (ds' : DataStore Value) × (get_emitted_alerts d fd ds
          ≡ ok (record fd { alerts = [] }, ds', fd.alerts))
        × HasSameMembers ds ds'
  unfolding get_emitted_alerts
  get_emitted_alerts-all fd ds live =
      let (ds₁, done, same) = adjust_alerts-HasSameMembers increase fd.alerts ds live in
      let (ds₂, done', same') =
        adjust_alerts-HasSameMembers decrease fd.alerts ds₁
          (AreLive-same ds ds₁ fd.alerts same live) in
      (ds₂, rw (done, done'), λ q. same' q ∙ same q)

  module _ (received : String → Option (Response Value)) (now : MemberPtr → Timestamp) where
    -- A step of the detection, with its answer and the alert, or of the main loop.
    pub data Event : Type 0 where
      checked : Bool → Alert → Event
      taken : Event

    pub record Run : Type 0 where
      pub detection : FaultDetection d
      pub store : DataStore Value
      -- The alerts that the main loop has got.
      pub delivered : List Alert

    abbrev pub run_event : Event → Run → Outcome Run
    run_event (checked found alert) r = do
      (alerts, ds) ← emit d received now found alert r.detection.alerts r.store
      ok (record r { detection = record r.detection { alerts = alerts }; store = ds })
    run_event taken r = do
      (fd, ds, out) ← get_emitted_alerts d r.detection r.store
      ok (record { detection = fd; store = ds; delivered = r.delivered ++ out })

    abbrev pub run_events : List Event → Run → Outcome Run
    run_events [] r = ok r
    run_events (e ∷ es) r = do r' ← run_event e r; run_events es r'

    -- The alerts of the checks that found a fault.
    abbrev pub found_alerts : List Event → List Alert
    found_alerts [] = []
    found_alerts (checked true alert ∷ es) = alert ∷ found_alerts es
    found_alerts (checked false alert ∷ es) = found_alerts es
    found_alerts (taken ∷ es) = found_alerts es

    -- The checked members exist.
    abbrev pub AreChecksLive : DataStore Value → List Event → Type 0
    AreChecksLive ds [] = Unit {0}
    AreChecksLive ds (checked found alert ∷ es) = IsLive ds alert.member × AreChecksLive ds es
    AreChecksLive ds (taken ∷ es) = AreChecksLive ds es

    AreChecksLive-same :
        (ds ds' : DataStore Value) (es : List Event)
        → HasSameMembers ds ds'
        → AreChecksLive ds es
        → AreChecksLive ds' es
    AreChecksLive-same ds ds' [] same live = live
    AreChecksLive-same ds ds' (checked found alert ∷ es) same (l, live) =
        (IsLive-same ds ds' alert.member same l, AreChecksLive-same ds ds' es same live)
    AreChecksLive-same ds ds' (taken ∷ es) same live = AreChecksLive-same ds ds' es same live

    -- In any interleaving of checks and of calls of `getEmittedAlerts`, on members that exist, every
    -- step succeeds, and what has been delivered followed by what is pending is what was before,
    -- followed by the alerts of the checks that found a fault: each alert is delivered once, in order.
    pub run_events-once :
        (es : List Event) (r : Run)
        → AreLive r.store r.detection.alerts
        → AreChecksLive r.store es
        → (r' : Run) × (run_events es r ≡ ok r')
          × (r'.delivered ++ r'.detection.alerts
              ≡ (r.delivered ++ r.detection.alerts) ++ found_alerts es)
    unfolding emit
    run_events-once [] r live checks =
        (r, refl, sym (append-nil (r.delivered ++ r.detection.alerts)))
    run_events-once (checked true alert ∷ es) r live (l, checks) =
        let (r', done, all) =
          run_events-once es
            (record r {
              detection = record r.detection { alerts = r.detection.alerts ++ alert ∷ [] };
            })
            (AreLive-append r.store r.detection.alerts alert live l) checks in
        (
          r',
          done,
          all
              ∙ ap (λ v. v ++ found_alerts es)
                  (sym (append_assoc r.delivered r.detection.alerts (alert ∷ [])))
              ∙ append_assoc (r.delivered ++ r.detection.alerts) (alert ∷ []) (found_alerts es),
        )
    run_events-once (checked false alert ∷ es) r live (l, checks) =
        let (ds, done, same) = adjust_counter-HasSameMembers decrease alert.member r.store l in
        let (r', done', all) =
          run_events-once es (record r { store = ds })
            (AreLive-same r.store ds r.detection.alerts same live)
            (AreChecksLive-same r.store ds es same checks) in
        (r', rw done done', all)
    run_events-once (taken ∷ es) r live checks =
        let (ds, done, same) = get_emitted_alerts-all r.detection r.store live in
        let (r', done', all) =
          run_events-once es
            record {
              detection = record r.detection { alerts = [] };
              store = ds;
              delivered = r.delivered ++ r.detection.alerts;
            }
            tt (AreChecksLive-same r.store ds es same checks) in
        (r', rw done done', all ∙ rw append-nil)
