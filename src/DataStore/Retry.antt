-- ===== src/DataStore/Retry.antt =====
-- `DataStore::tryMakeIpcClient` of data-store.cpp. `succeeds i` says whether attempt `i`, from 0,
-- to make the client succeeds. The counter `nrRetries`, an `ssize_t`, is kept as its bit pattern.
-- The waiting time between attempts is left out.
use stream_fdl.Prelude.{
  ℕ, zero, suc, ◌+◌, ◌-◌, ◌%◌, ◌^◌, ◌<◌, ◌≡◌, refl, ap, ◌∙◌, inl, inr, Bool, true, false, Option,
  none, some, arith, ◌==◌, if◌then◌else◌, Bool-cases,
}

pub data Attempted : Type 0 where
  -- The client of the attempt with this number.
  connected : ℕ → Attempted
  -- `std::exit(1)` after so many attempts.
  exited : ℕ → Attempted
  -- The fuel ran out.
  still_trying : Attempted

unfoldable pub decrement : ℕ → ℕ
decrement n = (n + (2 ^ 64 - 1)) % 2 ^ 64

-- The `while (true)` loop.
unfoldable pub retry : ℕ → (ℕ → Bool) → (attempt retries : ℕ) → Attempted
retry zero succeeds attempt retries = still_trying
retry (suc fuel) succeeds attempt retries =
    let again = retry fuel succeeds (suc attempt) (decrement retries) in
    if succeeds attempt
    then connected attempt
    else (if decrement retries == 0 then exited (suc attempt) else again)

-- `retry-connection` and `retry-attempts` are the configuration's.
unfoldable pub try_make_ipc_client :
    ℕ → (retry_connection : Bool) → (retry_attempts : ℕ) → (ℕ → Bool) → Attempted
try_make_ipc_client fuel retry_connection retry_attempts succeeds =
    if retry_connection
    then retry fuel succeeds 0 (decrement retry_attempts)
    else (if succeeds 0 then connected 0 else exited 1)

-- The first attempt that succeeds, of `n` from `attempt` on.
unfoldable pub first_success : (ℕ → Bool) → (attempt n : ℕ) → Option ℕ
first_success succeeds attempt zero = none
first_success succeeds attempt (suc n) =
    if succeeds attempt then some attempt else first_success succeeds (suc attempt) n

abbrev pub outcome_of : Option ℕ → ℕ → Attempted
outcome_of (some k) n = connected k
outcome_of none n = exited n

decrement-suc : (n : ℕ) → suc n < 2 ^ 64 → decrement (suc n) ≡ n
unfolding decrement
decrement-suc n h = omega arith

retry-first_success :
    (fuel : ℕ) (succeeds : ℕ → Bool) (attempt n : ℕ)
    → suc n < 2 ^ 64
    → n < fuel
    → retry fuel succeeds attempt (suc n)
      ≡ outcome_of (first_success succeeds attempt (suc n)) (attempt + suc n)
unfolding retry first_success
retry-first_success zero succeeds attempt n small enough = absurd (omega arith)
retry-first_success (suc fuel) succeeds attempt zero small enough =
    rw (decrement-suc 0 small) (elim (Bool-cases (succeeds attempt)) [
      | inl e ↦ rw e
      | inr e ↦ rw e (ap exited (omega arith))
    ])
retry-first_success (suc fuel) succeeds attempt (suc n) small enough =
    rw (decrement-suc (suc n) small) (elim (Bool-cases (succeeds attempt)) [
      | inl e ↦ rw e
      | inr e ↦ rw e (
          more (suc n == 0) (ground arith)
            (retry-first_success fuel succeeds (suc attempt) n (omega arith) (omega arith))
          ∙ ap (outcome_of (first_success succeeds (suc attempt) (suc n))) (omega arith))
    ])
  where
    more :
        (b : Bool) {x : Attempted}
        → b ≡ false
        → retry fuel succeeds (suc attempt) (suc n) ≡ x
        → (if b then exited (suc attempt) else retry fuel succeeds (suc attempt) (suc n)) ≡ x
    more b e p = rw e p

-- With retries on and `retry-attempts` at `n + 2`, the client is that of the first attempt that
-- succeeds among `n + 1`, and the program exits after `n + 1` failures.
pub try_make_ipc_client-retries :
    (fuel n : ℕ) (succeeds : ℕ → Bool)
    → suc (suc n) < 2 ^ 63
    → n < fuel
    → try_make_ipc_client fuel true (suc (suc n)) succeeds
      ≡ outcome_of (first_success succeeds 0 (suc n)) (suc n)
unfolding try_make_ipc_client
try_make_ipc_client-retries fuel n succeeds small enough =
    rw (decrement-suc (suc n) (omega arith)) (
      retry-first_success fuel succeeds 0 n (omega arith) enough
      ∙ ap (outcome_of (first_success succeeds 0 (suc n))) (omega arith))

retry-endless :
    (fuel : ℕ) (succeeds : ℕ → Bool) (attempt n : ℕ)
    → ((i : ℕ) → succeeds i ≡ false)
    → fuel < n
    → n < 2 ^ 64
    → retry fuel succeeds attempt n ≡ still_trying
unfolding retry
retry-endless zero succeeds attempt n fails less small = refl
retry-endless (suc fuel) succeeds attempt zero fails less small = absurd (omega arith)
retry-endless (suc fuel) succeeds attempt (suc n) fails less small =
    rw (fails attempt, decrement-suc n small, positive)
      (retry-endless fuel succeeds (suc attempt) n fails (omega arith) (omega arith))
  where
    positive : (n == 0) ≡ false
    positive = ground arith

-- With retries on and `retry-attempts` at one, a client that cannot be made is tried for ever: the
-- program has not exited after any number of failures that the counter can pass without overflow.
pub try_make_ipc_client-endless :
    (fuel : ℕ) (succeeds : ℕ → Bool)
    → ((i : ℕ) → succeeds i ≡ false)
    → fuel < 2 ^ 63
    → try_make_ipc_client fuel true 1 succeeds ≡ still_trying
unfolding try_make_ipc_client retry decrement
try_make_ipc_client-endless fuel succeeds fails small =
    rw (decrement-suc 0 (omega arith)) (go fuel small)
  where
    go : (k : ℕ) → k < 2 ^ 63 → retry k succeeds 0 0 ≡ still_trying
    go zero h = refl
    go (suc k) h =
        rw (fails 0) (retry-endless k succeeds 1 (decrement 0) fails (omega arith) (omega arith))
