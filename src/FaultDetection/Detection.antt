-- ===== src/FaultDetection/Detection.antt =====
-- Theorems on the detection of faults in fault-detection.cpp.
use stream_fdl.Prelude.{
  ℕ, zero, suc, ◌<◌, String, ◌≡◌, refl, ◌⊎◌, inl, inr, Bool, true, not, ◌||◌, none, some, List, [],
  ◌∷◌, foldl, arith, ◌==◌, if◌then◌else◌, length, get_elem?, ok,
}
use stream_fdl.Prelude.Double.{Double}
use stream_fdl.CircularBuffer.{CircularBuffer, empty, current_value}
use stream_fdl.CircularBuffer.Statistics.{get_mean, get_std_dev}
use stream_fdl.Members.{Member}
use stream_fdl.FaultDetection.{
  AttributeWindow, is_affected, affected_attributes, is_dead_node, detect_faults,
}

List-cases : {A : Type 0} (xs : List A) → (xs ≡ []) ⊎ ((c : A × List A) × (xs ≡ c.0 ∷ c.1))
List-cases [] = inl refl
List-cases (x ∷ xs) = inr ((x, xs), refl)

module _ (d : Double) where
  open d use {Value, add, sub, mul, div, sqrt, of_ℕ, zero_value, lt}

  -- A buffer whose iterator can be read, or that holds nothing.
  abbrev pub IsReadable : CircularBuffer Value → Type 0
  IsReadable b = (length b.buffer ≡ 0) ⊎ (b.current < length b.buffer)

  abbrev pub AllReadable : AttributeWindow d → Type 0
  AllReadable [] = Unit {0}
  AllReadable ((name, b) ∷ window) = IsReadable b × AllReadable window

  abbrev mean_of : List Value → Value
  mean_of xs = div (foldl add zero_value xs) (of_ℕ (length xs))

  abbrev std_dev_of : List Value → Value
  std_dev_of xs = sqrt (
      div (foldl (λ acc x. add acc (mul (sub x (mean_of xs)) (sub x (mean_of xs)))) zero_value xs)
        (of_ℕ (length xs)))

  -- A value outside of three standard deviations around the mean of `xs`.
  abbrev is_outlier : List Value → Value → Bool
  is_outlier xs x =
      lt x (sub (mean_of xs) (mul (of_ℕ 3) (std_dev_of xs)))
      || lt (add (mean_of xs) (mul (of_ℕ 3) (std_dev_of xs))) x

  -- The names of the buffers whose current value is an outlier.
  abbrev pub outliers : AttributeWindow d → List String
  outliers [] = []
  outliers ((name, b) ∷ window) = elim (get_elem? b.buffer b.current) [
    | none ↦ outliers window
    | some x ↦ if is_outlier b.buffer x then name ∷ outliers window else outliers window
  ]

  get_elem?-some :
      (xs : List Value) (i : ℕ) → i < length xs → (x : Value) × (get_elem? xs i ≡ some x)
  get_elem?-some [] i h = absurd (omega arith)
  get_elem?-some (x ∷ xs) zero h = (x, refl)
  get_elem?-some (x ∷ xs) (suc i) h = get_elem?-some xs i (omega arith)

  get_elem?-empty : (xs : List Value) (i : ℕ) → length xs ≡ 0 → get_elem? xs i ≡ none
  get_elem?-empty [] i h = refl
  get_elem?-empty (x ∷ xs) i h = absurd (omega arith)

  is_affected-is_outlier :
      (b : CircularBuffer Value) (x : Value)
      → get_elem? b.buffer b.current ≡ some x
      → 0 < length b.buffer
      → is_affected d b ≡ ok (is_outlier b.buffer x)
  unfolding is_affected current_value get_mean get_std_dev
  is_affected-is_outlier b x e n = ground arith

  affected_attributes-outliers :
      (window : AttributeWindow d)
      → AllReadable window
      → affected_attributes d window ≡ ok (outliers window)
  unfolding affected_attributes empty
  affected_attributes-outliers [] r = refl
  affected_attributes-outliers ((name, b) ∷ window) (inl e, r) =
      let rest = affected_attributes-outliers window r in
      let nothing = get_elem?-empty b.buffer b.current e in ground arith
  affected_attributes-outliers ((name, b) ∷ window) (inr e, r) =
      let rest = affected_attributes-outliers window r in
      let (x, current) = get_elem?-some b.buffer b.current e in
      let affected = is_affected-is_outlier b x current (omega arith) in ground arith

  -- Where each buffer of the window is empty or has its iterator before its end, `detectFaults`
  -- returns: true for a node that is not alive, without a look at the window, and otherwise the
  -- names of the buffers that are not empty and whose current value lies outside of three standard
  -- deviations around the mean, in the window's order, and true when there is one.
  pub detect_faults-outliers :
      (member : Member Value) (window : AttributeWindow d)
      → AllReadable window
      → detect_faults d member window
        ≡ ok (
            if is_dead_node d member
            then (true, [])
            else (not (length (outliers window) == 0), outliers window))
  unfolding detect_faults
  detect_faults-outliers member window r =
      let affected = affected_attributes-outliers window r in
      elim (List-cases (outliers window)) [
        | inl e ↦ ground arith
        | inr ((name, names), e) ↦ ground arith
      ]
