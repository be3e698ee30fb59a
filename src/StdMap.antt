-- ===== src/StdMap.antt =====
-- `std::map<K, V, Compare>` as the sources use it: the entries in order, and keys told apart by
-- the comparator alone. Two keys are one when neither is less than the other.
pub mod Strings
pub mod Entries
use Prim.Native.String.{compare}
use text.Mathlib.Text.{is_lt}
use text.Mathlib.TextPositions.{compare_refl}
use stream_fdl.Prelude.{
  ◌-◌, String, ◌≡◌, refl, Bool, true, false, not, ◌&&◌, Option, none, some, List, [], ◌∷◌, arith,
  if◌then◌else◌,
}

unfoldable pub equivalent {ℓ} : {K : Type ℓ} → (K → K → Bool) → K → K → Bool
equivalent less a b = not (less a b) && not (less b a)

module _ {ℓ κ} {K : Type ℓ} {V : Type κ} (less : K → K → Bool) where
  unfoldable pub find : K → List (K × V) → Option V
  find k [] = none
  find k ((j, w) ∷ m) = if equivalent less j k then some w else find k m

  unfoldable pub insert_sorted : K → V → List (K × V) → List (K × V)
  insert_sorted k v [] = (k, v) ∷ []
  insert_sorted k v ((j, w) ∷ m) =
      if less k j then (k, v) ∷ (j, w) ∷ m else (j, w) ∷ insert_sorted k v m

  -- `emplace`: an existing entry stays, and the flag says whether a new one went in.
  unfoldable pub emplace : K → V → List (K × V) → List (K × V) × Bool
  unfolding insert_sorted
  emplace k v m = elim (find k m) [ some w ↦ (m, false) | none ↦ (insert_sorted k v m, true) ]

  pub emplace-empty : (k : K) (v : V) → emplace k v [] ≡ ((k, v) ∷ [], true)
  unfolding emplace find insert_sorted
  emplace-empty k v = refl

  -- A write through the iterator that `find` returns.
  unfoldable pub modify : K → (V → V) → List (K × V) → List (K × V)
  modify k f [] = []
  modify k f ((j, w) ∷ m) = if equivalent less j k then (j, f w) ∷ m else (j, w) ∷ modify k f m

  find-insert_sorted_other :
      (k j : K) (v : V) (m : List (K × V))
      → equivalent less k j ≡ false
      → find j (insert_sorted k v m) ≡ find j m
  unfolding find insert_sorted
  find-insert_sorted_other k j v [] h = rw h
  find-insert_sorted_other k j v ((i, w) ∷ m) h = ground (arith, find-insert_sorted_other k j v m h)

  find-insert_sorted_self :
      (k : K) (v : V) (m : List (K × V))
      → equivalent less k k ≡ true
      → find k m ≡ none
      → find k (insert_sorted k v m) ≡ some v
  unfolding find insert_sorted
  find-insert_sorted_self k v [] r h = rw r
  find-insert_sorted_self k v ((i, w) ∷ m) r h = ground (arith, find-insert_sorted_self k v m r)

  pub find-emplace_other :
      (k j : K) (v : V) (m : List (K × V))
      → equivalent less k j ≡ false
      → find j (emplace k v m).0 ≡ find j m
  unfolding emplace
  find-emplace_other k j v m h = ground (arith, find-insert_sorted_other k j v m h)

  pub find-emplace_self :
      (k : K) (v : V) (m : List (K × V))
      → equivalent less k k ≡ true
      → find k (emplace k v m).0 ≡ elim (find k m) [ some w ↦ some w | none ↦ some v ]
  unfolding emplace
  find-emplace_self k v m r = ground (arith, find-insert_sorted_self k v m r)

  pub find-modify_self :
      (k : K) (f : V → V) (m : List (K × V)) (w : V)
      → find k m ≡ some w
      → find k (modify k f m) ≡ some (f w)
  unfolding find modify
  find-modify_self k f [] w h = cc
  find-modify_self k f ((i, u) ∷ m) w h = ground (arith, find-modify_self k f m w)

  pub find-modify_other :
      (k j : K) (f : V → V) (m : List (K × V))
      → ((i : K) → equivalent less i k ≡ true → equivalent less i j ≡ false)
      → find j (modify k f m) ≡ find j m
  unfolding find modify
  find-modify_other k j f [] apart = refl
  find-modify_other k j f ((i, u) ∷ m) apart =
      ground (arith, apart i, find-modify_other k j f m apart)

-- `operator<` of `std::string`.
unfoldable pub str_less : String → String → Bool
str_less s t = is_lt (compare s t)

pub str_equivalent_refl : (s : String) → equivalent str_less s s ≡ true
unfolding str_less equivalent
str_equivalent_refl s = rw (compare_refl s)

-- A map from strings with one entry.
pub find-single : {V : Type 0} (k : String) (v : V) → find str_less k ((k, v) ∷ []) ≡ some v
unfolding find
find-single k v = rw (str_equivalent_refl k)

pub modify-single :
    {V : Type 0} (k : String) (f : V → V) (v : V)
    → modify str_less k f ((k, v) ∷ []) ≡ (k, f v) ∷ []
unfolding modify
modify-single k f v = rw (str_equivalent_refl k)
