-- ===== src/Prelude/Double.antt =====
-- `double` with its operations as a parameter: the hardware's floating point arithmetic and the
-- `sqrt` of the C library are no code of the repository. No law of them is assumed.
use Prim.Native.Nat.{ℕ, ◌+◌, ◌-◌, ◌*◌, ◌/◌}
use mathlib.Core.Bool.{Bool}
use stream_fdl.Prelude.Tests.{ltb, leb}

pub record Double : Type 1 where
  pub Value : Type 0
  pub zero_value : Value
  pub add : Value → Value → Value
  pub sub : Value → Value → Value
  pub mul : Value → Value → Value
  pub div : Value → Value → Value
  pub sqrt : Value → Value
  -- The conversion from `size_t`.
  pub of_ℕ : ℕ → Value
  -- `a < b` and `a <= b`.
  pub lt : Value → Value → Bool
  pub le : Value → Value → Bool

-- Whole numbers in their place, for examples.
abbrev pub whole : Double
whole = record {
  Value = ℕ;
  zero_value = 0;
  add = λ a b. a + b;
  sub = λ a b. a - b;
  mul = λ a b. a * b;
  div = λ a b. a / b;
  sqrt = λ a. a;
  of_ℕ = λ n. n;
  lt = ltb;
  le = leb;
}
