-- ===== src/Pacing.antt =====
-- The end of each round of the loops in src/dynamic-subgraph/data-store.cpp, dynamic-subgraph.cpp and
-- graph.cpp and in src/fault-detection/fault-detection.cpp: the time that is left of the round is
-- waited for. `start` and `stop` are readings of the system clock in its ticks, `ticks` the number of
-- ticks of a millisecond; the clock may have been set back in between.
use stream_fdl.Prelude.{
  ℕ, ◌+◌, ◌-◌, ◌*◌, ◌/◌, ◌≤◌, ◌<◌, ◌≡◌, refl, ◌⊎◌, inl, inr, false, arith, leb, ◌==◌, if◌then◌else◌,
  Bool-cases,
}
use native.Mathlib.Nat.{
  div-mul-le_self, add-mul, mul-le-mul_right, mul-le-mul, mul-div_left, lt-div-mul-add,
}

-- `remainingTime`, where it is positive, and 0 for no sleep. The cast to milliseconds rounds to zero.
unfoldable pub sleep_time : (ticks loop_target_interval start stop : ℕ) → ℕ
sleep_time ticks loop_target_interval start stop =
    if leb start stop
    then loop_target_interval - (stop - start) / ticks
    else loop_target_interval + (start - stop) / ticks

-- What `visualise` waits for a key, one millisecond at least.
unfoldable pub key_time : (ticks loop_target_interval start stop : ℕ) → ℕ
key_time ticks loop_target_interval start stop =
    let remaining_time = sleep_time ticks loop_target_interval start stop in
    if remaining_time == 0 then 1 else remaining_time

≤-cases : (a b : ℕ) → ((k : ℕ) × (b ≡ a + k)) ⊎ (b ≤ a)
≤-cases a b = elim (Bool-cases (leb a b)) [
  | inl less ↦ inl (b - a, ground arith)
  | inr more ↦ inr (ground arith)
]

-- Where the clock was not set back, a round with its sleep takes the target interval at least, and
-- where the round itself took less than the interval, less than a millisecond more than it.
pub sleep_time-paces :
    (ticks loop_target_interval start stop : ℕ)
    → 0 < ticks
    → start ≤ stop
    → (loop_target_interval * ticks
        ≤ sleep_time ticks loop_target_interval start stop * ticks + (stop - start))
      × (stop - start < loop_target_interval * ticks
          → sleep_time ticks loop_target_interval start stop * ticks + (stop - start)
            < loop_target_interval * ticks + ticks)
unfolding sleep_time
sleep_time-paces ticks loop_target_interval start stop positive forward =
    let elapsed = stop - start in
    let low = div-mul-le_self elapsed ticks in
    let high = lt-div-mul-add {a = elapsed} positive in
    elim (≤-cases (elapsed / ticks) loop_target_interval) [
      | inl (left, there) ↦
          let sleeps : sleep_time ticks loop_target_interval start stop ≡ left = ground arith in
          let whole = add-mul (elapsed / ticks) left ticks in
          rw (sleeps, there)
            (omega (arith, low, high, whole), λ short. omega (arith, low, high, whole))
      | inr over ↦
          let none' : sleep_time ticks loop_target_interval start stop ≡ 0 = ground arith in
          let more = mul-le-mul_right ticks over in
          rw none' (omega (arith, low, more), λ short. omega (arith, low, more))
    ]

-- Where the clock was set back by a number of milliseconds, the thread sleeps that much longer.
pub sleep_time-back :
    (ticks loop_target_interval stop back : ℕ)
    → 0 < ticks
    → 0 < back
    → sleep_time ticks loop_target_interval (stop + back * ticks) stop ≡ loop_target_interval + back
unfolding sleep_time
sleep_time-back ticks loop_target_interval stop back positive some' =
    let product : 0 < back * ticks = mul-le-mul some' positive in
    let earlier : leb (stop + back * ticks) stop ≡ false = ground arith in
    let gap : stop + back * ticks - stop ≡ back * ticks = omega arith in
    rw (earlier, gap, mul-div_left back positive) refl
