-- ===== src/DynamicSubgraph/Abort.antt =====
-- Theorems on `checkAbortCirteria` and the counter of the blind spot checks of dynamic-subgraph.cpp
-- over many rounds.
use stream_fdl.Prelude.{
  ℕ, zero, suc, ◌+◌, ◌%◌, ◌^◌, ◌≤◌, ◌<◌, ◌≡◌, refl, sym, ap, ◌∙◌, Bool, true, false, not, ◌&&◌,
  List, [], ◌∷◌, foldl, arith, if◌then◌else◌, length, Outcome, ok, ◌>>=◌,
}
use native.Mathlib.Nat.{mod-lt, mod-eq_of_lt, mod-add-mod, zero-mod}
use stream_fdl.CircularBuffer.Growth.{push-length}
use stream_fdl.Prelude.Double.{Double}
use stream_fdl.CircularBuffer.{CircularBuffer, push}
use stream_fdl.CircularBuffer.Statistics.{get_mean}
use stream_fdl.DynamicSubgraph.{DynamicSubgraphBuilder, check_abort_criteria, next_check}

-- The counter after a number of rounds.
abbrev pub checks_after : (interval rounds counter : ℕ) → Outcome ℕ
checks_after interval zero counter = ok counter
checks_after interval (suc k) counter = do
  counter' ← next_check interval counter
  checks_after interval k counter'

next_check-from :
    (interval k : ℕ)
    → 0 < interval
    → interval < 2 ^ 64
    → next_check interval (k % interval) ≡ ok ((k + 1) % interval)
unfolding next_check
next_check-from interval k pos bound =
    let inside = mod-lt k pos in
    let no_wrap = mod-eq_of_lt {n = k % interval + 1} {m = 2 ^ 64} (omega arith) in
    let one_more = mod-add-mod k interval 1 in ground arith

checks_after-from :
    (interval n k : ℕ)
    → 0 < interval
    → interval < 2 ^ 64
    → checks_after interval n (k % interval) ≡ ok ((k + n) % interval)
checks_after-from interval zero k pos bound = ap (λ i. ok (i % interval)) (omega arith)
checks_after-from interval (suc n) k pos bound =
    ap (λ o. o >>= checks_after interval n) (next_check-from interval k pos bound)
    ∙ checks_after-from interval n (k + 1) pos bound
    ∙ ap (λ i. ok (i % interval)) (omega arith)

-- Where the interval is not 0, after `n` rounds from a counter of 0 the counter is the remainder of
-- `n`: a check of the blind spots is due in every `interval`-th round, the first included.
pub checks_after-remainder :
    (interval n : ℕ)
    → 0 < interval
    → interval < 2 ^ 64
    → checks_after interval n 0 ≡ ok (n % interval)
checks_after-remainder interval n pos bound =
    ap (checks_after interval n) (sym (zero-mod interval))
    ∙ checks_after-from interval n 0 pos bound
    ∙ ap (λ i. ok (i % interval)) (omega arith)

module _ (d : Double) where
  open d use {Value, zero_value, add, div, of_ℕ, lt, le}

  -- One round, with the reset of the main loop where the criteria are reached: whether the mean
  -- exceeds the threshold, and whether the round aborts.
  abbrev pub round : ℕ → DynamicSubgraphBuilder d → Outcome (DynamicSubgraphBuilder d × Bool × Bool)
  round n b = do
    (b', aborted) ← check_abort_criteria d n b
    mean ← get_mean d b'.last_nr_alerts
    ok (
      if aborted then record b' { something_is_going_on = false } else b',
      lt b.abortion_criteria_threshold mean,
      aborted,
    )

  abbrev pub run :
      List ℕ → DynamicSubgraphBuilder d → Outcome (DynamicSubgraphBuilder d × List (Bool × Bool))
  run [] b = ok (b, [])
  run (n ∷ ns) b = do
    (b', exceeded, aborted) ← round n b
    (b'', trace) ← run ns b'
    ok (b'', (exceeded, aborted) ∷ trace)

  abbrev pub one_if : Bool → ℕ
  one_if true = 1
  one_if false = 0

  abbrev pub count_exceeded : List (Bool × Bool) → ℕ
  count_exceeded [] = 0
  count_exceeded (r ∷ rs) = one_if r.0 + count_exceeded rs

  abbrev pub count_aborted : List (Bool × Bool) → ℕ
  count_aborted [] = 0
  count_aborted (r ∷ rs) = one_if r.1 + count_aborted rs

  pub get_mean-ok :
      (c : CircularBuffer Value) → 0 < length c.buffer → (mean : Value) × (get_mean d c ≡ ok mean)
  unfolding get_mean
  get_mean-ok c h = (div (foldl add zero_value c.buffer) (of_ℕ (length c.buffer)), ground arith)

  abbrev goes_on : Bool → Value → Value → Bool
  goes_on going mean threshold = if going then not (le mean threshold) else lt threshold mean

  round_lem :
      (n it : ℕ) (b : DynamicSubgraphBuilder d) (c : CircularBuffer Value) (mean : Value)
      → push b.last_nr_alerts (of_ℕ n) ≡ ok (c, it)
      → get_mean d c ≡ ok mean
      → round n b
        ≡ ok (
          record b {
            last_nr_alerts = c;
            something_is_going_on =
                goes_on b.something_is_going_on mean b.abortion_criteria_threshold;
          },
          lt b.abortion_criteria_threshold mean,
          b.something_is_going_on && le mean b.abortion_criteria_threshold,
        )
  unfolding check_abort_criteria
  round_lem n it b c mean pushed averaged = ground arith

  balance :
      (going exceeded below : Bool)
      → one_if (going && below) + one_if (if going then not below else exceeded)
        ≤ one_if going + one_if exceeded
  balance true true true = omega arith
  balance true true false = omega arith
  balance true false true = omega arith
  balance true false false = omega arith
  balance false exceeded below = omega arith

  -- Where the iterator of the buffer of numbers of alerts is inside or at the end, all rounds of the
  -- abort criteria return, however many there are; the buffer then holds one number more for each
  -- round; and from a state without an investigation, there are at most as many aborts as rounds
  -- whose mean exceeds the threshold (an investigation that runs at the start counts as one more).
  pub run-balance :
      (ns : List ℕ) (b : DynamicSubgraphBuilder d)
      → b.last_nr_alerts.current ≤ length b.last_nr_alerts.buffer
      → (b' : DynamicSubgraphBuilder d) × (trace : List (Bool × Bool)) × (run ns b ≡ ok (b', trace))
        × (length b'.last_nr_alerts.buffer ≡ length b.last_nr_alerts.buffer + length ns)
        × count_aborted trace ≤ count_exceeded trace + one_if b.something_is_going_on
  run-balance [] b inside = (b, [], refl, omega arith, omega arith)
  run-balance (n ∷ ns) b inside =
      let (c, pushed, longer, inside') = push-length b.last_nr_alerts (of_ℕ n) inside in
      let (mean, averaged) = get_mean-ok c (omega arith) in
      let thr = b.abortion_criteria_threshold in
      let first = round_lem n b.last_nr_alerts.current b c mean pushed averaged in
      let even = balance b.something_is_going_on (lt thr mean) (le mean thr) in
      let next = record b {
        last_nr_alerts = c;
        something_is_going_on = goes_on b.something_is_going_on mean thr;
      } in
      let (b', trace, rest, many, ih) = run-balance ns next inside' in
      (
        b',
        (lt thr mean, b.something_is_going_on && le mean thr) ∷ trace,
        rw first (rw rest refl),
        omega arith,
        omega arith,
      )
