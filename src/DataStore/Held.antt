-- ===== src/DataStore/Held.antt =====
-- Handles into a store with well-formed lists (data-store.cpp): the elements that they point at.
use stream_fdl.Prelude.{
  ◌≡◌, refl, ◌≢◌, inl, inr, false, some, [], ◌∷◌, ◌++◌, arith, Bool-cases, length, length-append,
}
use stream_fdl.AtomicCounter.{AtomicCounter}
use stream_fdl.DoubleLinkedList.{Ptr, null, Entry, Element, Heap, DoubleLinkedList}
use stream_fdl.DoubleLinkedList.Segment.{Cells, Seg, has, has-append, IsList}
use stream_fdl.AtomicCounter.{non_zero}
use stream_fdl.DataStore.Collect.InUse.{in_use}
use stream_fdl.DataStore.Messages.Entries.{replace-Seg}

module _ {T : Type 0} where
  -- The entry with a changed counter.
  abbrev pub count_by : (AtomicCounter → AtomicCounter) → Entry T → Entry T
  count_by f d = record d { use_counter = f d.use_counter }

  Seg-once :
      (h : Heap T) (stop prev first last : Ptr) (xs ys : Cells T) (p : Ptr) (d : Entry T)
      → Seg h stop prev first (xs ++ (p, d) ∷ ys) last
      → (has p xs ≡ false) × (has p ys ≡ false)
  Seg-once h stop prev first last [] ys p d (e, n, out, (q, at, s)) = (refl, out)
  Seg-once h stop prev first last ((b, x) ∷ xs) ys p d (e, n, out, (q, at, s)) =
      let (front, back) = Seg-once h stop b q last xs ys p d s in
      (ground (arith, has-append b xs ((p, d) ∷ ys)), back)

  -- No address stands twice in a well-formed list.
  pub IsList-once :
      (l : DoubleLinkedList T) (xs ys : Cells T) (p : Ptr) (d : Entry T)
      → IsList l (xs ++ (p, d) ∷ ys)
      → (has p xs ≡ false) × (has p ys ≡ false)
  IsList-once l xs ys p d is = Seg-once l.heap null null l.first l.last xs ys p d is.chain

  -- A change of one entry keeps the number of elements.
  pub length-entry :
      (xs ys : Cells T) (p : Ptr) (d d' : Entry T)
      → length (xs ++ (p, d') ∷ ys) ≡ length (xs ++ (p, d) ∷ ys)
  length-entry xs ys p d d' =
      rw (length-append xs ((p, d) ∷ ys), length-append xs ((p, d') ∷ ys)) refl

  in_use-append : (xs ys : Cells T) → in_use (xs ++ ys) ≡ in_use xs ++ in_use ys
  in_use-append [] ys = refl
  in_use-append ((p, d) ∷ xs) ys = elim (Bool-cases (non_zero d.use_counter)) [
    | inl used ↦ rw (used, in_use-append xs ys)
    | inr unused ↦ rw (unused, in_use-append xs ys)
  ]

  pub has-in_use : (a : Ptr) (xs : Cells T) → has a xs ≡ false → has a (in_use xs) ≡ false
  has-in_use a [] out = refl
  has-in_use a ((p, d) ∷ xs) out = ground (arith, has-in_use a xs)

  -- An element that nothing uses is not among those in use.
  pub has-unused :
      (xs ys : Cells T) (p : Ptr) (d : Entry T)
      → has p xs ≡ false
      → has p ys ≡ false
      → non_zero d.use_counter ≡ false
      → has p (in_use (xs ++ (p, d) ∷ ys)) ≡ false
  has-unused xs ys p d front back unused =
      rw
        (
          in_use-append xs ((p, d) ∷ ys),
          unused,
          has-append p (in_use xs) (in_use ys),
          has-in_use p xs front,
          has-in_use p ys back,
        )
        refl

  -- What stands at an address of a well-formed list.
  pub IsList-heap :
      (l : DoubleLinkedList T) (xs ys : Cells T) (p : Ptr) (d : Entry T)
      → IsList l (xs ++ (p, d) ∷ ys)
      → (p ≢ null) × ((e : Element T) × (l.heap p ≡ some e) × (e.entry ≡ d))
  IsList-heap l xs ys p d is =
      let (n, (e, there, same, s)) =
        replace-Seg l.heap null null l.first l.last xs ys p d d is.chain in
      (n, (e, there, same))
