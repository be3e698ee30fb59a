-- ===== src/CircularBuffer/History.antt =====
-- What a sequence of pushes leaves in the buffer of circular-buffer.cpp.
use mathlib.Core.List.{reverse-cons, append_assoc, append-nil}
use stream_fdl.Prelude.{
  ℕ, suc, ◌≡◌, refl, sym, ap, ◌∙◌, true, false, List, [], ◌∷◌, ◌++◌, reverse, arith, ◌==◌, length,
  length-append, Outcome, ok, ◌>>=◌, ok-injective,
}
use stream_fdl.CircularBuffer.{CircularBuffer, make, insert_at, push, size, full, current_value}

module _ {ℓ} {A : Type ℓ} where
  insert_at-append :
      (xs ys : List A) (v : A) → insert_at (xs ++ ys) (length xs) v ≡ ok (xs ++ v ∷ ys)
  unfolding insert_at
  insert_at-append [] ys v = refl
  insert_at-append (x ∷ xs) ys v = rw (insert_at-append xs ys v)

  not_at_end : (xs ys : List A) (v : A) → (length xs == length (xs ++ v ∷ ys)) ≡ false
  not_at_end xs ys v = ground (arith, length-append xs (v ∷ ys))

  pub push-split :
      (n : ℕ) (xs ys : List A) (v : A)
      → push (record { max_size = n; buffer = xs ++ ys; current = length xs }) v
        ≡ ok (record { max_size = n; buffer = xs ++ v ∷ ys; current = length xs }, length xs)
  unfolding push
  push-split n xs ys v = rw (insert_at-append xs ys v, not_at_end xs ys v)

  -- A run of pushes.
  unfoldable pub push_all : CircularBuffer A → List A → Outcome (CircularBuffer A)
  push_all c [] = ok c
  push_all c (v ∷ vs) = do (next, it) ← push c v; push_all next vs

  abbrev pub newest_first : ℕ → List A → CircularBuffer A
  newest_first n xs = record { max_size = n; buffer = xs; current = 0 }

  push_all-onto :
      (n : ℕ) (vs xs : List A)
      → push_all (newest_first n xs) vs ≡ ok (newest_first n (reverse vs ++ xs))
  unfolding push_all
  push_all-onto n [] xs = refl
  push_all-onto n (v ∷ vs) xs =
      rw (push-split n [] xs v, push_all-onto n vs (v ∷ xs), reverse-cons v vs, append_assoc)

  make-newest_first : (n : ℕ) (c : CircularBuffer A) → make n ≡ ok c → c ≡ newest_first n []
  unfolding make
  make-newest_first n c made = ground arith

  -- Starting from a new buffer of any capacity `n`, any run of pushes succeeds, and the buffer then
  -- holds every value of the run, newest first, with the current position at the newest.
  pub push_all-history :
      (n : ℕ) (vs : List A) (c : CircularBuffer A)
      → make n ≡ ok c
      → push_all c vs ≡ ok (newest_first n (reverse vs))
  push_all-history n vs c made =
      rw (make-newest_first n c made, push_all-onto n vs [], append-nil (reverse vs))

  -- `push` onto a full buffer of capacity `n`, filled by pushes, makes it one value longer than its
  -- capacity, and `full` no longer holds of it.
  pub push-full :
      (n : ℕ) (vs : List A) (v : A) (c : CircularBuffer A)
      → push_all (newest_first n []) vs ≡ ok c
      → full c ≡ true
      → (c' : CircularBuffer A) × (push c v ≡ ok (c', 0))
        × (size c' ≡ suc n)
        × (full c' ≡ false)
        × (current_value c' ≡ ok v)
  unfolding full size current_value
  push-full n vs v c run is_full =
      let e : c ≡ newest_first n (reverse vs) = ok-injective (
        sym run
        ∙ push_all-onto n vs []
        ∙ ap (λ xs. ok (newest_first n xs)) (append-nil (reverse vs))) in
      (
        newest_first n (v ∷ reverse vs),
        rw e (push-split n [] (reverse vs) v),
        ground arith,
        ground arith,
        refl,
      )
