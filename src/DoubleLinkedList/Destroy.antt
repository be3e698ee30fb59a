-- ===== src/DoubleLinkedList/Destroy.antt =====
-- The destructor of double-linked-list.cpp.
use stream_fdl.Prelude.{
  ℕ, zero, suc, ◌<◌, ◌≡◌, refl, sym, ap, ◌∙◌, true, false, none, [], ◌∷◌, arith, ◌==◌,
  if◌then◌else◌, ==-refl, length, ok,
}
use stream_fdl.DoubleLinkedList.{
  Ptr, null, element, Heap, DoubleLinkedList, write, delete, destroy_from, destroy,
}
use stream_fdl.DoubleLinkedList.Segment.{Cells, has, Seg, IsList, load-some, frame-write}

module _ {T : Type 0} where
  abbrev pub Without : Cells T → Heap T → Heap T → Type 0
  Without xs h g = (a : Ptr) → g a ≡ (if has a xs then none else h a)

  destroy_from-Seg :
      (fuel : ℕ) (l : DoubleLinkedList T) (h : Heap T) (prev p : Ptr) (xs : Cells T)
      → Seg h null prev p xs l.last
      → length xs < fuel
      → (g : Heap T) × (destroy_from fuel l h p ≡ ok g) × Without xs h g
  unfolding destroy_from delete write
  destroy_from-Seg zero l h prev p xs s k = absurd (omega arith)
  destroy_from-Seg (suc fuel) l h prev p [] (e, f) k = (h, rw e, λ a. refl)
  destroy_from-Seg (suc fuel) l h prev p ((a, d) ∷ []) (e, n, out, (q, at, s)) k =
      let nonnull : (a == null) ≡ false = ground arith in
      let at_end : (q == null) ≡ true = ground arith in
      let is_last : (a == l.last) ≡ true = ground arith in
      let (g, done, gone) = destroy_from-Seg fuel l (write h a none) a q [] s (omega arith) in
      (
        g,
        rw (e, nonnull, load-some h a (element prev q d) n at, at_end, is_last, done),
        λ b. gone b ∙ ground arith,
      )
  destroy_from-Seg (suc fuel) l h prev p ((a, d) ∷ (b, d') ∷ xs) (e, n, out, (q, at, s)) k =
      let nonnull : (a == null) ≡ false = ground arith in
      let some_next : (q == null) ≡ false = ground arith in
      let s' = frame-write h null a q l.last ((b, d') ∷ xs) a none out s in
      let (g, done, gone) =
        destroy_from-Seg fuel l (write h a none) a q ((b, d') ∷ xs) s' (omega arith) in
      (
        g,
        rw (
          e,
          nonnull,
          load-some h a (element prev q d) n at,
          some_next,
          load-some h q (element a s.3.0 d') (λ z. s.1 (sym s.0 ∙ z)) (ap h s.0 ∙ s.3.1),
          ==-refl a,
          done,
        ),
        λ c. gone c ∙ ground arith,
      )

  destroy-Without :
      (fuel : ℕ) (l : DoubleLinkedList T) (xs : Cells T)
      → IsList l xs
      → length xs < fuel
      → (g : Heap T) × (destroy fuel l ≡ ok g) × Without xs l.heap g
  unfolding destroy
  destroy-Without fuel l [] is k = (l.heap, ground arith, λ a. refl)
  destroy-Without fuel l ((a, d) ∷ xs) is k =
      let some_first : (l.first == null) ≡ false = ground arith in
      let (g, done, gone) = destroy_from-Seg fuel l l.heap null l.first ((a, d) ∷ xs) is.chain k in
      (g, rw (some_first, done), gone)

  -- The destructor of a well-formed list fails no assertion and frees every element, and nothing is
  -- left in the heap, given more rounds than elements.
  pub destroy-frees :
      (fuel : ℕ) (l : DoubleLinkedList T) (xs : Cells T)
      → IsList l xs
      → length xs < fuel
      → (g : Heap T) × (destroy fuel l ≡ ok g) × ((a : Ptr) → g a ≡ none)
  destroy-frees fuel l xs is k =
      let (g, done, gone) = destroy-Without fuel l xs is k in
      (g, done, λ a. gone a ∙ ground (arith, is.closed a))
