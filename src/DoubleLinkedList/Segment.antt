-- ===== src/DoubleLinkedList/Segment.antt =====
-- Doubly linked segments of the heap of double-linked-list.cpp, and the cells that they stand for.
use stream_fdl.Prelude.{
  ◌≡◌, refl, ◌∙◌, ◌≢◌, Bool, true, false, ◌||◌, Option, none, some, List, [], ◌∷◌, ◌++◌, arith,
  ◌==◌, dangling, ok, fault,
}
use stream_fdl.DoubleLinkedList.{
  Ptr, null, Entry, Element, element, Heap, DoubleLinkedList, write, load, set_next,
}

-- The address and the data of each element, in order.
abbrev pub Cells : Type 0 → Type 0
Cells T = List (Ptr × Entry T)

module _ {T : Type 0} where
  abbrev pub has : Ptr → Cells T → Bool
  has a [] = false
  has a ((p, d) ∷ xs) = (a == p) || has a xs

  abbrev pub Apart : Cells T → Cells T → Type 0
  Apart xs ys = (a : Ptr) → has a xs ≡ true → has a ys ≡ false

  -- From `p`, whose predecessor is `prev`, the elements `xs` lead to `stop`; `last` is the last.
  abbrev pub Seg : Heap T → Ptr → Ptr → Ptr → Cells T → Ptr → Type 0
  Seg h stop prev p [] last = (p ≡ stop) × (last ≡ prev)
  Seg h stop prev p ((a, d) ∷ xs) last =
      (p ≡ a)
      × (a ≢ null)
      × (has a xs ≡ false)
      × ((q : Ptr) × (h a ≡ some (element prev q d)) × Seg h stop a q xs last)

  pub record IsList (l : DoubleLinkedList T) (xs : Cells T) : Type 0 where
    pub chain : Seg l.heap null null l.first xs l.last
    -- No other address is in use.
    pub closed : (a : Ptr) → has a xs ≡ false → l.heap a ≡ none

  pub has-append :
      (p : Ptr) (front back : Cells T) → has p (front ++ back) ≡ (has p front || has p back)
  has-append p [] back = refl
  has-append p ((q, d) ∷ front) back = ground (arith, has-append p front back)

  pub load-some : (h : Heap T) (p : Ptr) (e : Element T) → p ≢ null → h p ≡ some e → load h p ≡ ok e
  unfolding load
  load-some h p e n at = ground arith

  pub load-none : (h : Heap T) (p : Ptr) → h p ≡ none → load h p ≡ fault dangling
  unfolding load
  load-none h p at = ground arith

  -- A segment survives any change that spares its own addresses.
  pub frame :
      (h g : Heap T) (stop prev p last : Ptr) (xs : Cells T)
      → ((a : Ptr) → has a xs ≡ true → g a ≡ h a)
      → Seg h stop prev p xs last
      → Seg g stop prev p xs last
  frame h g stop prev p last [] same s = s
  frame h g stop prev p last ((a, d) ∷ xs) same (e, n, out, (q, at, s)) = (
    e,
    n,
    out,
    (q, same a (ground arith) ∙ at, frame h g stop a q last xs (λ b i. same b (ground arith)) s),
  )

  pub frame-write :
      (h : Heap T) (stop prev p last : Ptr) (xs : Cells T) (a : Ptr) (c : Option (Element T))
      → has a xs ≡ false
      → Seg h stop prev p xs last
      → Seg (write h a c) stop prev p xs last
  unfolding write
  frame-write h stop prev p last xs a c out =
      frame h (write h a c) stop prev p last xs (λ b i. ground arith)

  pub not-mem_of_none :
      (h : Heap T) (stop prev p last : Ptr) (xs : Cells T) (a : Ptr)
      → h a ≡ none
      → Seg h stop prev p xs last
      → has a xs ≡ false
  not-mem_of_none h stop prev p last [] a unused s = refl
  not-mem_of_none h stop prev p last ((b, d) ∷ xs) a unused (e, n, out, (q, at, s)) =
      ground (arith, not-mem_of_none h stop b q last xs a unused s)

  pub split :
      (h : Heap T) (stop prev p last : Ptr) (xs ys : Cells T)
      → Seg h stop prev p (xs ++ ys) last
      → (m : Ptr) × (k : Ptr) × Seg h m prev p xs k × Seg h stop k m ys last × Apart xs ys
  split h stop prev p last [] ys s = (p, prev, (refl, refl), s, λ a i. cc)
  split h stop prev p last ((a, d) ∷ xs) ys (e, n, out, (q, at, s)) =
      let (m, k, front, back, apart) = split h stop a q last xs ys s in
      let outs : has a xs ≡ false = ground (arith, has-append a xs ys) in
      let outs' : has a ys ≡ false = ground (arith, has-append a xs ys) in
      (m, k, (e, n, outs, (q, at, front)), back, λ b i. ground (arith, apart b))

  pub join :
      (h : Heap T) (stop m prev p k last : Ptr) (xs ys : Cells T)
      → Seg h m prev p xs k
      → Seg h stop k m ys last
      → Apart xs ys
      → Seg h stop prev p (xs ++ ys) last
  join h stop m prev p k last [] ys (e, f) back apart = rw (e, ← f) back
  join h stop m prev p k last ((a, d) ∷ xs) ys (e, n, out, (q, at, s)) back apart = (
    e,
    n,
    rw (has-append a xs ys, out) (apart a (ground arith)),
    (q, at, join h stop m a q k last xs ys s back (λ b i. apart b (ground arith))),
  )

  -- Writing the `next` of the last element moves the end of the segment.
  pub relink :
      (h : Heap T) (stop prev p last : Ptr) (a : Ptr) (d : Entry T) (xs : Cells T) (q : Ptr)
      → Seg h stop prev p ((a, d) ∷ xs) last
      → (g : Heap T) × (set_next h last q ≡ ok g)
        × Seg g q prev p ((a, d) ∷ xs) last
        × (has last ((a, d) ∷ xs) ≡ true)
        × ((b : Ptr) → (b == last) ≡ false → g b ≡ h b)
  unfolding set_next write
  relink h stop prev p last a d [] q (e, n, out, (r, at, (f, g))) = (
    write h last (some (element prev q d)),
    rw (g, load-some h a (element prev r d) n at),
    (e, n, refl, (q, ground arith, (refl, g))),
    ground arith,
    λ b i. ground arith,
  )
  relink h stop prev p last a d ((c, d') ∷ xs) q (e, n, out, (r, at, s)) =
      let (g, done, s', mem, same) = relink h stop a r last c d' xs q s in
      let other : (a == last) ≡ false = ground arith in
      (g, done, (e, n, out, (r, same a other ∙ at, s')), ground arith, same)

  pub ne_null_of_has :
      (h : Heap T) (stop prev p last : Ptr) (xs : Cells T) (a : Ptr)
      → Seg h stop prev p xs last
      → has a xs ≡ true
      → (a == null) ≡ false
  ne_null_of_has h stop prev p last [] a s i = cc
  ne_null_of_has h stop prev p last ((b, d) ∷ xs) a (e, n, out, (q, at, s)) i =
      ground (arith, ne_null_of_has h stop b q last xs a s)
