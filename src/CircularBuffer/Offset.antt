-- ===== src/CircularBuffer/Offset.antt =====
-- The index arithmetic of `CircularBuffer::current(ptrdiff_t)`.
use stream_fdl.Prelude.{
  ℕ, zero, suc, ◌+◌, ◌-◌, ◌*◌, ◌/◌, ◌%◌, ◌^◌, ◌≤◌, ◌<◌, ◌≡◌, sym, ap, ◌∙◌, ◌↔◌, Bool, true, false,
  arith, ◌==◌, ok, ok-injective,
}
use native.Mathlib.Nat.{
  mod-lt, mod-eq_of_lt, mod-add-mod, mod_self, div-add-mod, mul-add-mod_self_left,
}
use stream_fdl.CircularBuffer.{to_size_t, offset_from}

step_back : (m n d q : ℕ) → 0 < d → d ≤ n → n ≤ m → m ≡ n * q → (m - d) % n ≡ (n - d) % n
step_back m n d zero h k l e = absurd (omega arith)
step_back m n d (suc q) h k l e = ap (λ u. u % n) split ∙ mul-add-mod_self_left n q (n - d)
  where
    split : m - d ≡ n * q + (n - d)
    split = omega arith

-- The two remainders of a step back by `d` agree exactly when the modulus is a multiple of `n`.
back_agrees : (m n d : ℕ) → 0 < d → d ≤ n → n ≤ m → ((m - d) % n ≡ (n - d) % n) ↔ (m % n ≡ 0)
back_agrees m n d h k l = (forth, back)
  where
    regain : (t : ℕ) → d ≤ t → ((t - d) % n + d) % n ≡ t % n
    regain t le = mod-add-mod (t - d) n d ∙ ap (λ u. u % n) (omega arith)

    forth : (m - d) % n ≡ (n - d) % n → m % n ≡ 0
    forth e = sym (regain m (omega arith)) ∙ ap (λ u. (u + d) % n) e ∙ regain n k ∙ mod_self n

    back : m % n ≡ 0 → (m - d) % n ≡ (n - d) % n
    back e = step_back m n d (m / n) h k l (omega (arith, div-add-mod m n))

module _ (position n amount : ℕ) where
  offset_from-forward :
      0 < n
      → position + amount < 2 ^ 64
      → offset_from position n false amount ≡ ok ((position + amount) % n)
  unfolding offset_from
  offset_from-forward nonempty small =
      ground (arith, mod-eq_of_lt {n = position + amount} {m = 2 ^ 64})

  offset_from-in_range :
      (negative : Bool)
      → 0 < n
      → (i : ℕ) × (offset_from position n negative amount ≡ ok i) × (i < n)
  unfolding offset_from
  offset_from-in_range negative nonempty =
      (to_size_t position negative amount % n, ground arith, mod-lt _ nonempty)

  offset_from-across :
      position < amount
      → amount ≤ n
      → n < 2 ^ 64
      → offset_from position n true amount ≡ ok ((2 ^ 64 - (amount - position)) % n)
  unfolding offset_from
  offset_from-across across within small = rw (nonzero, ap (λ t. t % n) inner)
    where
      nonzero : (n == 0) ≡ false
      nonzero = ground arith

      inner : (position + (2 ^ 64 - amount)) % 2 ^ 64 ≡ 2 ^ 64 - (amount - position)
      inner = omega arith

  -- A step back across the beginning, by at most the number of values, reaches the position that
  -- wraps round to the end exactly when `2 ^ 64` is a multiple of the number of values.
  pub offset_from-backward :
      position < amount
      → amount ≤ n
      → n < 2 ^ 64
      → (offset_from position n true amount ≡ ok ((position + n - amount) % n)) ↔ (2 ^ 64 % n ≡ 0)
  offset_from-backward across within small =
      rw (offset_from-across across within small, wrapped)
        (λ e. agrees.0 (ok-injective e), λ e. ap ok (agrees.1 e))
    where
      wrapped : position + n - amount ≡ n - (amount - position)
      wrapped = omega arith

      agrees :
          ((2 ^ 64 - (amount - position)) % n ≡ (n - (amount - position)) % n) ↔ (2 ^ 64 % n ≡ 0)
      agrees = back_agrees (2 ^ 64) n (amount - position) (omega arith) (omega arith) (omega arith)
