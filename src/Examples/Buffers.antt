-- ===== src/Examples/Buffers.antt =====
-- Buffers and counters at concrete inputs.
use stream_fdl.Prelude.{
  ℕ, ◌+◌, ◌-◌, ◌%◌, ◌^◌, ◌≡◌, refl, ◌↔◌, Bool, true, false, [], ◌∷◌, arith, ◌==◌, ok,
}
use stream_fdl.CircularBuffer.{
  CircularBuffer, make, push, insert_at, full, size, current_value, offset_from,
}
use stream_fdl.CircularBuffer.History.{push_all, newest_first, push_all-history, push-full}
use stream_fdl.CircularBuffer.Offset.{offset_from-backward}
use stream_fdl.DataStore.Retry.{
  try_make_ipc_client, try_make_ipc_client-retries, try_make_ipc_client-endless, outcome_of,
  first_success, still_trying,
}

abbrev three_new : CircularBuffer ℕ
three_new = record { max_size = 3; buffer = []; current = 0 }

push_all-history_example :
    push_all three_new (1 ∷ 2 ∷ 3 ∷ 4 ∷ []) ≡ ok (newest_first 3 (4 ∷ 3 ∷ 2 ∷ 1 ∷ []))
unfolding make
push_all-history_example = push_all-history 3 (1 ∷ 2 ∷ 3 ∷ 4 ∷ []) three_new refl

push-full_example :
    (c' : CircularBuffer ℕ) × (push (newest_first 2 (6 ∷ 5 ∷ [])) 7 ≡ ok (c', 0))
    × (size c' ≡ 3)
    × (full c' ≡ false)
    × (current_value c' ≡ ok 7)
unfolding push_all push insert_at full
push-full_example = push-full {A = ℕ} 2 (5 ∷ 6 ∷ []) 7 (newest_first 2 (6 ∷ 5 ∷ [])) refl refl

offset_from-backward_example : (offset_from 0 3 true 1 ≡ ok ((0 + 3 - 1) % 3)) ↔ (2 ^ 64 % 3 ≡ 0)
offset_from-backward_example = offset_from-backward 0 3 1 (omega arith) (omega arith) (omega arith)

abbrev third : ℕ → Bool
third i = i == 2

try_make_ipc_client-retries_example :
    try_make_ipc_client 5 true 4 third ≡ outcome_of (first_success third 0 3) 3
try_make_ipc_client-retries_example =
    try_make_ipc_client-retries 5 2 third (omega arith) (omega arith)

try_make_ipc_client-endless_example : try_make_ipc_client 1000 true 1 (λ _. false) ≡ still_trying
try_make_ipc_client-endless_example =
    try_make_ipc_client-endless 1000 (λ _. false) (λ i. refl) (omega arith)
