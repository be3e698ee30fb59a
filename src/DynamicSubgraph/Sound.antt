-- ===== src/DynamicSubgraph/Sound.antt =====
-- What every round of dynamic-subgraph.cpp keeps of the builder's state.
pub mod Round
use stream_fdl.Prelude.{
  ℕ, ◌+◌, ◌%◌, ◌^◌, ◌<◌, ◌≡◌, sym, ap, subst, [], inl, inr, Bool, true, false, not, List, arith,
  ◌==◌, if◌then◌else◌, Bool-cases, Outcome, ok, ◌>>=◌, >>=-eq-ok, ok-injective,
}
use stream_fdl.Prelude.After.{Any, After-ok, Outcome-After}
use stream_fdl.Prelude.Double.{Double}
use stream_fdl.AtomicCounter.{increase, decrease}
use stream_fdl.CircularBuffer.{push}
use stream_fdl.CircularBuffer.Statistics.{get_mean}
use stream_fdl.Graph
use stream_fdl.Graph.{Graph}
use stream_fdl.Graph.Vertices.{IsDistinct, reset-After}
use stream_fdl.DataStore.{Channel, DataStore, adjust_counter}
use stream_fdl.DataStore.Lookup.{NewIsValid}
use stream_fdl.Watchlist
use stream_fdl.Watchlist.{Watchlist, destroy_all}
use stream_fdl.Watchlist.Runs.{IsSingle}
use stream_fdl.FaultDetection
use stream_fdl.FaultDetection.{Alert, FaultDetection, get_emitted_alerts, destroy_window}
use stream_fdl.FaultDetection.Windows.{IsSingleWindow}
use stream_fdl.DynamicSubgraph.{DynamicSubgraphBuilder, next_check, check_abort_criteria, abort}
use native.Mathlib.Nat.{mod-lt}

-- The graph has no member twice, the counter of the blind spot check is below its interval, and the
-- watchlist and the windows hold one member each at most.
pub record IsSound (d : Double) (b : DynamicSubgraphBuilder d) : Type 0 where
  pub distinct : IsDistinct b.sag.vertices
  pub counting : b.blind_spot_check_counter < b.blindspot_interval
  pub watching : IsSingle b.watchlist.members
  pub windows : IsSingleWindow d b.fault_detection.moving_window

next_check-< : (interval counter next : ℕ) → next_check interval counter ≡ ok next → next < interval
unfolding next_check
next_check-< interval counter next h = elim (Bool-cases (interval == 0)) [
  | inl none' ↦ absurd (ground arith)
  | inr some' ↦
      let positive : 0 < interval = ground arith in
      ground (arith, mod-lt ((counter + 1) % 2 ^ 64) positive)
]

module _ (d : Double) where
  abbrev ended_check :
      (going over ends : Bool) (p q : DynamicSubgraphBuilder d)
      → Outcome (DynamicSubgraphBuilder d × Bool)
  ended_check going over ends p q =
      if not going then ok (if over then p else q, false) else ok (q, ends)

  checked-cases :
      (going over ends : Bool) (p q b' : DynamicSubgraphBuilder d) (aborted : Bool)
      → ended_check going over ends p q ≡ ok (b', aborted)
      → IsSound d p
      → IsSound d q
      → IsSound d b'
  checked-cases false true ends p q b' aborted h sp sq =
      subst (IsSound d) (ap (λ o. o.0) (ok-injective h)) sp
  checked-cases false false ends p q b' aborted h sp sq =
      subst (IsSound d) (ap (λ o. o.0) (ok-injective h)) sq
  checked-cases true over ends p q b' aborted h sp sq =
      subst (IsSound d) (ap (λ o. o.0) (ok-injective h)) sq

  check_abort_criteria-IsSound :
      (n : ℕ) (b b' : DynamicSubgraphBuilder d) (aborted : Bool)
      → IsSound d b
      → check_abort_criteria d n b ≡ ok (b', aborted)
      → IsSound d b'
  unfolding check_abort_criteria
  check_abort_criteria-IsSound n b b' aborted sound h =
      let ((alerts, it), pushed, h₁) = >>=-eq-ok (push b.last_nr_alerts (d.of_ℕ n)) _ h in
      let (mean, taken, h₂) = >>=-eq-ok (get_mean d alerts) _ h₁ in
      checked-cases b.something_is_going_on (d.lt b.abortion_criteria_threshold mean)
        (d.le mean b.abortion_criteria_threshold)
        (record b { last_nr_alerts = alerts; something_is_going_on = true })
        (record b { last_nr_alerts = alerts }) b' aborted h₂
        record {
          distinct = sound.distinct;
          counting = sound.counting;
          watching = sound.watching;
          windows = sound.windows;
        }
        record {
          distinct = sound.distinct;
          counting = sound.counting;
          watching = sound.watching;
          windows = sound.windows;
        }

  get_emitted_alerts-windows :
      (fd fd' : FaultDetection d) (ds ds' : DataStore d.Value) (out : List Alert)
      → get_emitted_alerts d fd ds ≡ ok (fd', ds', out)
      → fd.moving_window ≡ fd'.moving_window
  unfolding get_emitted_alerts
  get_emitted_alerts-windows fd fd' ds ds' out h =
      let (copied, run, h₁) =
        >>=-eq-ok
          (FaultDetection.adjust_alerts d (λ ds₀ p. adjust_counter increase p ds₀) fd.alerts ds) _
          h in
      let (cleared, run', kept) =
        >>=-eq-ok
          (FaultDetection.adjust_alerts d (λ ds₀ p. adjust_counter decrease p ds₀) fd.alerts copied)
          _ h₁ in
      ap (λ o. o.0.moving_window) (ok-injective kept)

  reset-empty :
      (w w' : Watchlist) (ds ds' : DataStore d.Value)
      → Watchlist.reset w ds ≡ ok (w', ds')
      → IsSingle w'.members
  unfolding Watchlist.reset
  reset-empty w w' ds ds' h =
      let (ds₁, run, kept) = >>=-eq-ok (destroy_all w.members ds) _ h in
      subst IsSingle (ap (λ o. o.0.members) (ok-injective kept)) tt

  reset-no_window :
      (fd fd' : FaultDetection d) (ds ds' : DataStore d.Value)
      → FaultDetection.reset d fd ds ≡ ok (fd', ds')
      → IsSingleWindow d fd'.moving_window
  unfolding FaultDetection.reset
  reset-no_window fd fd' ds ds' h =
      let (ds₁, run, kept) = >>=-eq-ok (destroy_window d fd.moving_window ds) _ h in
      subst (IsSingleWindow d) (ap (λ o. o.0.moving_window) (ok-injective kept)) tt

  reset-no_vertex :
      (g : Graph) (ds : DataStore d.Value) (r : Graph × DataStore d.Value)
      → Graph.reset g ds ≡ ok r
      → r.0.vertices ≡ []
  reset-no_vertex g ds r cleared =
      (After-ok Any _ (Graph.reset g ds) r
        (reset-After Any (λ _. Any) g ds
          (λ p ds₁ inside _. Outcome-After (adjust_counter decrease p ds₁)) tt)
        cleared).0

module _ (d : Double) (ch : Channel d.Value) (rounds : ℕ) (valid : NewIsValid ch) where
  abort-IsSound :
      (b b' : DynamicSubgraphBuilder d) (ds ds' : DataStore d.Value) (last : List Alert)
      → IsSound d b
      → abort d ch rounds b ds ≡ ok (b', ds', last)
      → IsSound d b'
  unfolding abort
  abort-IsSound b b' ds ds' last sound h =
      let ((w, ds₁), r₁, h₁) = >>=-eq-ok (Watchlist.reset b.watchlist ds) _ h in
      let ((fd, ds₂), r₂, h₂) = >>=-eq-ok (FaultDetection.reset d b.fault_detection ds₁) _ h₁ in
      let ((sag, ds₃), r₃, h₃) = >>=-eq-ok (Graph.reset b.sag ds₂) _ h₂ in
      let ((fd', ds₄, last'), r₄, kept) = >>=-eq-ok (get_emitted_alerts d fd ds₃) _ h₃ in
      subst (IsSound d) (ap (λ o. o.0) (ok-injective kept)) record {
        distinct = subst IsDistinct (sym (reset-no_vertex d b.sag ds₂ (sag, ds₃) r₃)) tt;
        counting = sound.counting;
        watching = reset-empty d b.watchlist w ds ds₁ r₁;
        windows =
            subst (IsSingleWindow d) (get_emitted_alerts-windows d fd fd' ds₃ ds₄ last' r₄)
              (reset-no_window d b.fault_detection fd ds₁ ds₂ r₂);
      }
