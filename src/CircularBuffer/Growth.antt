-- ===== src/CircularBuffer/Growth.antt =====
-- The growth of the buffer of circular-buffer.cpp by one `push`.
use stream_fdl.Prelude.{
  ℕ, zero, suc, ◌≤◌, ◌<◌, ◌≡◌, refl, ap, ◌&&◌, List, [], ◌∷◌, arith, ◌==◌, if◌then◌else◌, length,
  ok, ◌>>=◌,
}
use stream_fdl.Prelude.After.{After}
use stream_fdl.CircularBuffer.{CircularBuffer, push, insert_at}

module _ {A : Type 0} where
  insert_at-length :
      (xs : List A) (i : ℕ) (v : A)
      → i ≤ length xs
      → (ys : List A) × (insert_at xs i v ≡ ok ys) × (length ys ≡ suc (length xs))
  unfolding insert_at
  insert_at-length xs zero v h = (v ∷ xs, refl, omega arith)
  insert_at-length [] (suc i) v h = absurd (omega arith)
  insert_at-length (x ∷ xs) (suc i) v h =
      let (ys, run, longer) = insert_at-length xs i v (omega arith) in
      (x ∷ ys, ap (λ o. o >>= λ zs. ok (x ∷ zs)) run, omega arith)

  pub push-length :
      (b : CircularBuffer A) (v : A)
      → b.current ≤ length b.buffer
      → (c : CircularBuffer A) × (push b v ≡ ok (c, b.current))
        × (length c.buffer ≡ suc (length b.buffer))
        × c.current ≤ length c.buffer
  unfolding push
  push-length b v h =
      let (ys, run, longer) = insert_at-length b.buffer b.current v h in
      let next = if b.current == length ys && length ys == b.max_size then 0 else b.current in
      (
        record b { buffer = ys; current = next },
        ap
            (λ o. o >>= λ zs. ok (
              record b {
                buffer = zs;
                current =
                    if b.current == length zs && length zs == b.max_size then 0 else b.current;
              },
              b.current,
            ))
            run,
        longer,
        ground arith,
      )

  -- After a push, the iterator stands at a value.
  pub push-After :
      (b : CircularBuffer A) (v : A)
      → b.current ≤ length b.buffer
      → After ⊥ (λ r. r.0.current < length r.0.buffer) (push b v)
  unfolding push
  push-After b v h =
      let (ys, run, longer) = insert_at-length b.buffer b.current v h in rw run (ground arith)
