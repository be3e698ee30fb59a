-- ===== src/DoubleLinkedList/Search.antt =====
-- `find` and `findName` of double-linked-list.cpp, and the destructor's loop.
use stream_fdl.Prelude.{
  ℕ, zero, suc, ◌<◌, ◌≡◌, Bool, false, [], ◌∷◌, arith, ◌==◌, if◌then◌else◌, length, ok,
}
use stream_fdl.DoubleLinkedList.{Ptr, null, element, Heap, DoubleLinkedList, advance, find_from}
use stream_fdl.DoubleLinkedList.Segment.{Cells, Seg, IsList, load-some}

module _ {T : Type 0} (test : T → Bool) where
  -- The address of the first entry that passes, or null.
  unfoldable pub first_match : Cells T → Ptr
  first_match [] = null
  first_match ((a, d) ∷ xs) = if test d.instance_value then a else first_match xs

  find_from-Seg :
      (fuel : ℕ) (h : Heap T) (prev p last : Ptr) (xs : Cells T)
      → Seg h null prev p xs last
      → length xs < fuel
      → find_from test fuel h p ≡ ok (first_match xs)
  unfolding find_from first_match advance
  find_from-Seg zero h prev p last xs s k = absurd (omega arith)
  find_from-Seg (suc fuel) h prev p last [] (e, f) k = rw e
  find_from-Seg (suc fuel) h prev p last ((a, d) ∷ xs) (e, n, out, (q, at, s)) k =
      let nonnull : (a == null) ≡ false = ground arith in
      rw
        (
          e,
          nonnull,
          load-some h a (element prev q d) n at,
          find_from-Seg fuel h a q last xs s (omega arith),
        )
        (ground arith)

  -- On a well-formed list, and with more rounds than elements, the search returns the address of
  -- the first element that passes the test, and `end()` when there is none.
  pub find_from-first_match :
      (fuel : ℕ) (l : DoubleLinkedList T) (xs : Cells T)
      → IsList l xs
      → length xs < fuel
      → find_from test fuel l.heap l.first ≡ ok (first_match xs)
  find_from-first_match fuel l xs is k = find_from-Seg fuel l.heap null l.first l.last xs is.chain k
