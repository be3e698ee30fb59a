-- ===== src/DoubleLinkedList/Erase.antt =====
-- `erase` of double-linked-list.cpp: within the list, and at its two ends.
use stream_fdl.Prelude.{
  Bool-cases, ==_iff, inl, inr, ℕ, suc, ◌≡◌, sym, ap, ◌∙◌, Bool, false, none, some, [], ◌∷◌, ◌++◌,
  arith, ◌==◌, dangling, ok, fault,
}
use stream_fdl.DoubleLinkedList.{
  Ptr, null, Entry, element, Heap, DoubleLinkedList, write, set_prev, delete, erase, find_from,
}
use stream_fdl.DoubleLinkedList.Segment.{
  Cells, has, has-append, Seg, Apart, IsList, load-some, load-none, frame, split, join, relink,
  ne_null_of_has,
}

module _ {T : Type 0} where
  abbrev pub Erased : DoubleLinkedList T → Ptr → Cells T → Ptr → Cells T → Type 0
  Erased l p xs b ys =
      (l' : DoubleLinkedList T) × (erase l p ≡ ok (l', b))
      × IsList l' (xs ++ ys)
      × (l'.heap p ≡ none)

  -- The same with the segment alone, and what becomes of the other addresses.
  abbrev ErasedSeg : DoubleLinkedList T → Ptr → Cells T → Ptr → Cells T → Type 0
  ErasedSeg l p xs b ys =
      (l' : DoubleLinkedList T) × (erase l p ≡ ok (l', b))
      × Seg l'.heap null null l'.first (xs ++ ys) l'.last
      × (l'.heap p ≡ none)
      × ((c : Ptr) → has c xs ≡ false → has c ys ≡ false → (c == p) ≡ false → l'.heap c ≡ l.heap c)

  erase-Seg :
      (l : DoubleLinkedList T) (a : Ptr) (x : Entry T) (xs : Cells T) (p : Ptr) (d : Entry T)
      (b : Ptr) (y : Entry T) (ys : Cells T) (m k : Ptr)
      → Seg l.heap m null l.first ((a, x) ∷ xs) k
      → Seg l.heap null k m ((p, d) ∷ (b, y) ∷ ys) l.last
      → Apart ((a, x) ∷ xs) ((p, d) ∷ (b, y) ∷ ys)
      → ErasedSeg l p ((a, x) ∷ xs) b ((b, y) ∷ ys)
  unfolding erase set_prev delete write
  erase-Seg l a x xs p d b y ys m k front (e, n, out, (q, at, (e', n', out', (r, at', rest))))
        apart =
      let h : Heap T = l.heap in
      let (g, done, front', mem, same) = relink h m null l.first k a x xs q front in
      let some_prev : (k == null) ≡ false =
        ne_null_of_has h m null l.first k ((a, x) ∷ xs) k front mem in
      let some_next : (q == null) ≡ false = ground arith in
      let away : has k ((p, d) ∷ (b, y) ∷ ys) ≡ false = apart k mem in
      let next_at : g q ≡ some (element p r y) = ap g e' ∙ (same b (ground arith) ∙ at') in
      let g' : Heap T = write g q (some (element k r y)) in
      let this_same : g' p ≡ g p = ground arith in
      let this_at : g' p ≡ some (element k q d) = this_same ∙ (same p (ground arith) ∙ at) in
      let g'' : Heap T = write g' p none in
      let g''-same : (c : Ptr) → (c == p) ≡ false → (c == q) ≡ false → g'' c ≡ g c =
        λ c i j. ground arith in
      let front'' =
        frame g g'' q null l.first k ((a, x) ∷ xs) (λ c i. ground (arith, apart c)) front' in
      let rest' =
        frame h g'' null b r l.last ys
          (λ c i. g''-same c (ground arith) (ground arith) ∙ same c (ground arith)) rest in
      (
        record l { heap = g'' },
        rw
            (
              load-some h p (element k q d) n at,
              some_prev,
              done,
              some_next,
              load-some g q (element p r y) (λ z. n' (sym e' ∙ z)) next_at,
              load-some g' p (element k q d) n this_at,
            )
            (ap (λ c. ok (record l { heap = g'' }, c)) e'),
        join g'' null q null l.first k l.last ((a, x) ∷ xs) ((b, y) ∷ ys) front''
            (e', n', out', (r, ground arith, rest')) (λ c i. ground (arith, apart c)),
        ground arith,
        λ c o i j. g''-same c j (ground arith) ∙ same c (ground arith),
      )

  -- Erasing an element that is neither the first nor the last frees it, returns the next one, and
  -- leaves a well-formed list of the others.
  pub erase-interior :
      (l : DoubleLinkedList T) (a : Ptr) (x : Entry T) (xs : Cells T) (p : Ptr) (d : Entry T)
      (b : Ptr) (y : Entry T) (ys : Cells T)
      → IsList l (((a, x) ∷ xs) ++ (p, d) ∷ (b, y) ∷ ys)
      → Erased l p ((a, x) ∷ xs) b ((b, y) ∷ ys)
  erase-interior l a x xs p d b y ys is =
      let (m, k, front, back, apart) =
        split l.heap null null l.first l.last ((a, x) ∷ xs) ((p, d) ∷ (b, y) ∷ ys) is.chain in
      let (l', done, s, freed, same) = erase-Seg l a x xs p d b y ys m k front back apart in
      let parts = λ (c : Ptr). has-append c ((a, x) ∷ xs) ((b, y) ∷ ys) in
      let parts' = λ (c : Ptr). has-append c ((a, x) ∷ xs) ((p, d) ∷ (b, y) ∷ ys) in
      let closed : (c : Ptr) → has c (((a, x) ∷ xs) ++ (b, y) ∷ ys) ≡ false → l'.heap c ≡ none =
        λ c o. elim (Bool-cases (c == p)) [
          | inl i ↦ ap l'.heap ((==_iff c p).0 i) ∙ freed
          | inr j ↦
              same c (ground (arith, parts c)) (ground (arith, parts c)) j
              ∙ is.closed c (ground (arith, parts c, parts' c))
        ] in
      (l', done, record { chain = s; closed = closed }, freed)

  first-Seg :
      (h : Heap T) (last : Ptr) (p : Ptr) (d : Entry T) (xs : Cells T) (first : Ptr)
      → Seg h null null first ((p, d) ∷ xs) last
      → (l' : DoubleLinkedList T) × (q : Ptr) × (erase
            (record { heap = h; first = first; last = last })
            p
          ≡ ok (l', q))
        × (l'.first ≡ p)
        × (l'.heap p ≡ none)
  unfolding erase set_prev delete write
  first-Seg h last p d [] first (e, n, out, (q, at, (e', f))) = (
    record { heap = write h p none; first = first; last = last },
    q,
    rw (load-some h p (element null q d) n at, e', load-some h p (element null q d) n at),
    e,
    ground arith,
  )
  first-Seg h last p d ((b, y) ∷ ys) first (e, n, out, (q, at, (e', n', out', (r, at', rest)))) =
      let some_next : (q == null) ≡ false = ground arith in
      let g : Heap T = write h q (some (element null r y)) in
      let this_at : g p ≡ some (element null q d) = ground arith in
      (
        record { heap = write g p none; first = first; last = last },
        q,
        rw (
          load-some h p (element null q d) n at,
          some_next,
          load-some h q (element p r y) (λ z. n' (sym e' ∙ z)) (ap h e' ∙ at'),
          load-some g p (element null q d) n this_at,
        ),
        e,
        ground arith,
      )

  -- Erasing the first element of a well-formed list succeeds, and leaves `begin()` at the freed
  -- element: every later search through the list is undefined behaviour.
  pub erase-first :
      (l : DoubleLinkedList T) (p : Ptr) (d : Entry T) (xs : Cells T) (test : T → Bool) (fuel : ℕ)
      → IsList l ((p, d) ∷ xs)
      → (l' : DoubleLinkedList T) × (q : Ptr) × (erase l p ≡ ok (l', q))
        × (find_from test (suc fuel) l'.heap l'.first ≡ fault dangling)
  unfolding find_from
  erase-first l p d xs test fuel is =
      let (l', q, done, begins, freed) = first-Seg l.heap l.last p d xs l.first is.chain in
      let nonnull : (p == null) ≡ false = ground arith in
      (l', q, done, rw (begins, nonnull, load-none l'.heap p freed))
