-- ===== src/FaultDetection/Parallel.antt =====
-- The NOTE in `FaultDetection::run` of fault-detection.cpp: the buffers of one member grow in parallel.
use stream_fdl.Prelude.{
  ℕ, suc, ◌≤◌, String, ◌≡◌, refl, subst, true, false, [], ◌∷◌, arith, length, ok, ◌>>=◌,
}
use stream_fdl.Prelude.Double.{Double}
use stream_fdl.StdMap
use stream_fdl.StdMap.{str_less, str_equivalent_refl}
use stream_fdl.CircularBuffer.{CircularBuffer}
use stream_fdl.CircularBuffer.Growth.{push-length}
use stream_fdl.Members.Attributes.{AttributeMapping}
use stream_fdl.FaultDetection.{AttributeWindow, update_attr_window}

module _ (d : Double) where
  -- Every buffer holds `n` values, and its iterator stands on one of them or at the end.
  abbrev pub AllOfLength : ℕ → AttributeWindow d → Type 0
  AllOfLength n [] = Unit {0}
  AllOfLength n ((k, b) ∷ w) = (length b.buffer ≡ n) × b.current ≤ n × AllOfLength n w

  -- No key of the mapping is the key `k`.
  abbrev pub Fresh : String → AttributeMapping d.Value → Type 0
  Fresh k [] = Unit {0}
  Fresh k ((j, v) ∷ m) = (StdMap.equivalent str_less k j ≡ false) × Fresh k m

  -- The mapping has the keys of the window, in its order, and no key twice.
  abbrev pub Matches : AttributeMapping d.Value → AttributeWindow d → Type 0
  Matches [] [] = Unit {0}
  Matches [] (b ∷ w) = ⊥
  Matches (a ∷ m) [] = ⊥
  Matches ((j, v) ∷ m) ((k, b) ∷ w) = (k ≡ j) × Fresh k m × Matches m w

  -- Keys that are not in the mapping leave the first entry alone.
  update_attr_window-behind :
      (m : AttributeMapping d.Value) (k : String) (b : CircularBuffer d.Value)
      (w : AttributeWindow d)
      → Fresh k m
      → update_attr_window d m ((k, b) ∷ w) ≡ (update_attr_window d m w >>= λ w'. ok ((k, b) ∷ w'))
  unfolding update_attr_window StdMap.find StdMap.modify
  update_attr_window-behind [] k b w f = refl
  update_attr_window-behind ((j, v) ∷ m) k b w (f, fs) =
      grind (arith, f, update_attr_window-behind m k b)

  -- Where all buffers of a window hold the same number of values, with their iterators inside or at
  -- the end, and the attributes have the names of the window, none of them twice, the update returns
  -- a window of as many buffers in which all hold one value more.
  pub update_attr_window-parallel :
      (n : ℕ) (m : AttributeMapping d.Value) (w : AttributeWindow d)
      → Matches m w
      → AllOfLength n w
      → (w' : AttributeWindow d) × (update_attr_window d m w ≡ ok w')
        × (length w' ≡ length w)
        × AllOfLength (suc n) w'
  unfolding update_attr_window StdMap.find StdMap.modify
  update_attr_window-parallel n [] [] f r = ([], refl, refl, tt)
  update_attr_window-parallel n [] (b ∷ w) f r = absurd f
  update_attr_window-parallel n (a ∷ m) [] f r = absurd f
  update_attr_window-parallel n ((j, v) ∷ m) ((k, b) ∷ w) (same, f, fs) (l, c, r) =
      let (b', pushed, longer, inside) = push-length b v (omega arith) in
      let (w', run, as_many, ih) = update_attr_window-parallel n m w fs r in
      let behind = update_attr_window-behind m k b' w f in
      let itself =
        subst (λ i. StdMap.equivalent str_less k i ≡ true) same (str_equivalent_refl k) in
      ((k, b') ∷ w', ground arith, omega arith, (omega arith, omega arith, ih))
