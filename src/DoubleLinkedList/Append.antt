-- ===== src/DoubleLinkedList/Append.antt =====
-- `emplace_back` of double-linked-list.cpp.
use stream_fdl.Prelude.{ℕ, ◌≡◌, refl, ◌∙◌, ◌≢◌, false, none, some, [], ◌∷◌, ◌++◌, arith, ◌==◌, ok}
use stream_fdl.AtomicCounter.{counter}
use stream_fdl.DoubleLinkedList.{
  Ptr, null, Entry, element, Heap, DoubleLinkedList, write, emplace_back,
}
use stream_fdl.DoubleLinkedList.Segment.{
  has-append, Cells, has, Seg, IsList, frame-write, not-mem_of_none, join, relink, ne_null_of_has,
}

module _ {T : Type 0} where
  abbrev pub fresh_entry : T → ℕ → Entry T
  fresh_entry t r = record { instance_value = t; request_id = r; use_counter = counter 1 }

  abbrev pub Appended : DoubleLinkedList T → Cells T → Ptr → T → ℕ → Type 0
  Appended l xs fresh t r =
      (l' : DoubleLinkedList T) × (emplace_back l fresh t r ≡ ok (l', fresh))
      × IsList l' (xs ++ (fresh, fresh_entry t r) ∷ [])
      × ((a : Ptr) → has a xs ≡ false → (a == fresh) ≡ false → l'.heap a ≡ l.heap a)

  -- The same with the segment alone.
  abbrev AppendedSeg : DoubleLinkedList T → Cells T → Ptr → T → ℕ → Type 0
  AppendedSeg l xs fresh t r =
      (l' : DoubleLinkedList T) × (emplace_back l fresh t r ≡ ok (l', fresh))
      × Seg l'.heap null null l'.first (xs ++ (fresh, fresh_entry t r) ∷ []) l'.last
      × ((a : Ptr) → has a xs ≡ false → (a == fresh) ≡ false → l'.heap a ≡ l.heap a)

  emplace_back-Seg :
      (l : DoubleLinkedList T) (xs : Cells T) (fresh : Ptr) (t : T) (r : ℕ)
      → Seg l.heap null null l.first xs l.last
      → fresh ≢ null
      → l.heap fresh ≡ none
      → AppendedSeg l xs fresh t r
  unfolding emplace_back write
  emplace_back-Seg l [] fresh t r (e, f) ne unused = (
    record {
      heap = write l.heap fresh (some (element l.last null (fresh_entry t r)));
      first = fresh;
      last = fresh;
    },
    rw f,
    (refl, ne, refl, (null, ground arith, (refl, refl))),
    λ a o i. ground arith,
  )
  emplace_back-Seg l ((b, d) ∷ xs) fresh t r s ne unused =
      let c : Entry T = fresh_entry t r in
      let out = not-mem_of_none l.heap null null l.first l.last ((b, d) ∷ xs) fresh unused s in
      let h : Heap T = write l.heap fresh (some (element l.last null c)) in
      let s' =
        frame-write l.heap null null l.first l.last ((b, d) ∷ xs) fresh
          (some (element l.last null c)) out s in
      let (g, done, s'', mem, same) = relink h null null l.first l.last b d xs fresh s' in
      let some_last : (l.last == null) ≡ false =
        ne_null_of_has l.heap null null l.first l.last ((b, d) ∷ xs) l.last s mem in
      let other : (fresh == l.last) ≡ false = ground arith in
      let cell : g fresh ≡ some (element l.last null c) = same fresh other ∙ ground arith in
      (
        record { heap = g; first = l.first; last = fresh },
        rw (some_last, done),
        join g null fresh null l.first l.last fresh ((b, d) ∷ xs) ((fresh, c) ∷ []) s''
            (refl, ne, refl, (null, cell, (refl, refl))) (λ a i. ground arith),
        λ a o i. same a (ground arith) ∙ ground arith,
      )

  -- Given an unused address, `emplace_back` on a well-formed list appends the new element with a
  -- use counter of one, returns its address, and writes to no address outside the list.
  pub emplace_back-append :
      (l : DoubleLinkedList T) (xs : Cells T) (fresh : Ptr) (t : T) (r : ℕ)
      → IsList l xs
      → fresh ≢ null
      → l.heap fresh ≡ none
      → Appended l xs fresh t r
  emplace_back-append l xs fresh t r is ne unused =
      let (l', done, s, same) = emplace_back-Seg l xs fresh t r is.chain ne unused in
      let parts = λ (a : Ptr). has-append a xs ((fresh, fresh_entry t r) ∷ []) in
      (
        l',
        done,
        record {
          chain = s;
          closed = λ a o.
              same a (ground (arith, parts a)) (ground (arith, parts a))
              ∙ is.closed a (ground (arith, parts a));
        },
        same,
      )
