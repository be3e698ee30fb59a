-- ===== src/StdMap/Strings.antt =====
-- `operator<` of `std::string`: two strings that it does not tell apart are equal.
use Prim.Native.Nat.{compare as compare_ℕ, Ordering, ℕ}
use Prim.Native.Char.{code}
use Prim.Native.String.{String, [], ◌∷◌, compare, then}
use Prim.Native.String.compare
use mathlib.Core.Path.{◌≡◌, refl}
use mathlib.Core.Bool.{true, not, ◌&&◌}
use native.Mathlib.Omega.{arith}
use text.Mathlib.Text.{is_lt, is_eq, ◌==◌ as str_eq}
use text.Mathlib.TextEquality.{path_by_compare}
use stream_fdl.StdMap.{equivalent, str_less}

abbrev flip : Ordering → Ordering
flip Ordering.lt = Ordering.gt
flip Ordering.eq = Ordering.eq
flip Ordering.gt = Ordering.lt

compare_ℕ_flip : (m n : ℕ) → compare_ℕ n m ≡ flip (compare_ℕ m n)
compare_ℕ_flip m n = ground arith

flip-then : (o p : Ordering) → flip (then o p) ≡ then (flip o) (flip p)
flip-then Ordering.lt p = refl
flip-then Ordering.eq p = refl
flip-then Ordering.gt p = refl

compare-flip : (s t : String) → compare t s ≡ flip (compare s t)
compare-flip [] [] = rw compare.nil-nil
compare-flip [] (d ∷ t) = rw (compare.nil-cons d t, compare.cons-nil d t)
compare-flip (c ∷ s) [] = rw (compare.nil-cons c s, compare.cons-nil c s)
compare-flip (c ∷ s) (d ∷ t) = rw (
  compare.cons-cons d c t s,
  compare.cons-cons c d s t,
  compare-flip s t,
  compare_ℕ_flip (code c) (code d),
  flip-then (compare_ℕ (code c) (code d)) (compare s t),
)

apart_or_equal : (o : Ordering) → (not (is_lt o) && not (is_lt (flip o))) ≡ true → o ≡ Ordering.eq
apart_or_equal Ordering.lt h = cc
apart_or_equal Ordering.eq h = refl
apart_or_equal Ordering.gt h = cc

pub eq_of_equivalent : (s t : String) → equivalent str_less s t ≡ true → s ≡ t
unfolding equivalent str_less
eq_of_equivalent s t h =
    path_by_compare s t (apart_or_equal (compare s t) (rw (compare-flip s t) at h))

pub equivalent-eq : (s t : String) → equivalent str_less s t ≡ str_eq s t
unfolding equivalent str_less
equivalent-eq s t = same (compare s t) (compare t s) (compare-flip s t)
  where
    same : (o p : Ordering) → p ≡ flip o → (not (is_lt o) && not (is_lt p)) ≡ is_eq o
    same Ordering.lt p e = refl
    same Ordering.eq p e = rw e
    same Ordering.gt p e = rw e
