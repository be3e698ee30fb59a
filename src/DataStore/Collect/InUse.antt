-- ===== src/DataStore/Collect/InUse.antt =====
-- What the removal of unused elements leaves of a list whose first and last elements are in use
-- (data-store.cpp).
use stream_fdl.Prelude.{
  ℕ, zero, suc, ◌<◌, ◌≡◌, sym, ◌∙◌, subst, ◌≢◌, inl, inr, Bool, true, false, some, List, [], ◌∷◌,
  ◌++◌, arith, ◌==◌, if◌then◌else◌, Bool-cases, length, Outcome, ok,
}
use mathlib.Core.List.{append_assoc, append-nil}
use stream_fdl.AtomicCounter.{non_zero}
use stream_fdl.DoubleLinkedList.{Ptr, null, Entry, element, DoubleLinkedList, advance, erase}
use stream_fdl.DoubleLinkedList.Segment.{Cells, Seg, IsList, load-some, split}
use stream_fdl.DoubleLinkedList.Erase.{erase-interior}
use stream_fdl.DataStore.Collect.{collect_from}

module _ {T : Type 0} where
  abbrev pub is_used : Ptr × Entry T → Bool
  is_used (p, d) = non_zero d.use_counter

  abbrev pub in_use : Cells T → Cells T
  in_use [] = []
  in_use ((p, d) ∷ xs) = if non_zero d.use_counter then (p, d) ∷ in_use xs else in_use xs

  abbrev pub unused_ids : Cells T → List ℕ
  unused_ids [] = []
  unused_ids ((p, d) ∷ xs) =
      if non_zero d.use_counter then unused_ids xs else d.request_id ∷ unused_ids xs

  abbrev pub head_of : Cells T → Ptr
  head_of [] = null
  head_of ((p, d) ∷ xs) = p

  -- The last of the elements, if there is one, is in use.
  abbrev pub EndsInUse : Cells T → Type 0
  EndsInUse [] = Unit {0}
  EndsInUse ((p, d) ∷ []) = non_zero d.use_counter ≡ true
  EndsInUse ((p, d) ∷ x ∷ xs) = EndsInUse (x ∷ xs)

  element_at :
      (l : DoubleLinkedList T) (xs ys : Cells T) (p : Ptr) (d : Entry T)
      → IsList l (xs ++ (p, d) ∷ ys)
      → (p ≢ null) × ((k : Ptr) × (q : Ptr) × (l.heap p ≡ some (element k q d)) × (q ≡ head_of ys))
  element_at l xs ys p d is =
      let (m, k, front, back, apart) =
        split l.heap null null l.first l.last xs ((p, d) ∷ ys) is.chain in
      go m k ys back
    where
      go :
          (m k : Ptr) (zs : Cells T)
          → Seg l.heap null k m ((p, d) ∷ zs) l.last
          → (p ≢ null)
            × ((k : Ptr) × (q : Ptr) × (l.heap p ≡ some (element k q d)) × (q ≡ head_of zs))
      go m k [] (e, n, out, (q, at, (e', f))) = (n, (k, q, at, e'))
      go m k ((b, y) ∷ zs) (e, n, out, (q, at, (e', n', out', rest))) = (n, (k, q, at, e'))

  abbrev Collected : Cells T → Cells T → List ℕ → Outcome (DoubleLinkedList T × List ℕ) → Type 0
  Collected xs ys ids out =
      (l' : DoubleLinkedList T) × (out ≡ ok (l', ids ++ unused_ids ys))
      × IsList l' (xs ++ in_use ys)

  EndsInUse-tail : (c : Ptr × Entry T) (ys : Cells T) → EndsInUse (c ∷ ys) → EndsInUse ys
  EndsInUse-tail (p, d) [] ends = tt
  EndsInUse-tail (p, d) (y ∷ ys) ends = ends

  erase_unused :
      (l : DoubleLinkedList T) (a : Ptr) (x : Entry T) (xs : Cells T) (p : Ptr) (d : Entry T)
      (ys : Cells T)
      → IsList l (((a, x) ∷ xs) ++ (p, d) ∷ ys)
      → EndsInUse ((p, d) ∷ ys)
      → non_zero d.use_counter ≡ false
      → (l₁ : DoubleLinkedList T) × (erase l p ≡ ok (l₁, head_of ys))
        × IsList l₁ (((a, x) ∷ xs) ++ ys)
        × EndsInUse ys
  erase_unused l a x xs p d [] is ends unused = cc
  erase_unused l a x xs p d ((b, y) ∷ ys) is ends unused =
      let (l₁, erased, is₁, freed) = erase-interior l a x xs p d b y ys is in
      (l₁, erased, is₁, ends)

  collect_from-in_use :
      (fuel : ℕ) (l : DoubleLinkedList T) (a : Ptr) (x : Entry T) (xs ys : Cells T) (ids : List ℕ)
      → IsList l (((a, x) ∷ xs) ++ ys)
      → EndsInUse ys
      → length ys < fuel
      → Collected ((a, x) ∷ xs) ys ids (collect_from fuel l (head_of ys) ids)
  unfolding collect_from advance
  collect_from-in_use zero l a x xs ys ids is ends small = absurd (omega arith)
  collect_from-in_use (suc fuel) l a x xs [] ids is ends small = (l, rw append-nil, is)
  collect_from-in_use (suc fuel) l a x xs ((p, d) ∷ ys) ids is ends small =
      let (n, (k, q, at, e)) = element_at l ((a, x) ∷ xs) ys p d is in
      let nonnull : (p == null) ≡ false = ground arith in
      let loaded = load-some l.heap p (element k q d) n at in
      elim (Bool-cases (non_zero d.use_counter)) [
        | inl used ↦
            let moved = append_assoc xs ((p, d) ∷ []) ys in
            let (l', done, is') =
              collect_from-in_use fuel l a x (xs ++ (p, d) ∷ []) ys ids
                (subst (λ c. IsList l ((a, x) ∷ c)) (sym moved) is) (EndsInUse-tail (p, d) ys ends)
                (omega arith) in
            (
              l',
              rw (nonnull, loaded, used, e) done,
              rw used (
                  subst (λ c. IsList l' ((a, x) ∷ c)) (append_assoc xs ((p, d) ∷ []) (in_use ys))
                    is'),
            )
        | inr unused ↦
            let (l₁, erased, is₁, ends₁) = erase_unused l a x xs p d ys is ends unused in
            let (l', done, is') =
              collect_from-in_use fuel l₁ a x xs ys (ids ++ d.request_id ∷ []) is₁ ends₁
                (omega arith) in
            (l', rw (nonnull, loaded, unused, erased) (done ∙ rw append_assoc), rw unused is')
      ]

  -- On a well-formed list whose first and last elements are in use, and with more rounds than
  -- elements, a pass over the whole list succeeds: it leaves exactly the elements in use, in order,
  -- and unsubscribes exactly from the requests of the others.
  pub collect-in_use :
      (fuel : ℕ) (l : DoubleLinkedList T) (a : Ptr) (x : Entry T) (ys : Cells T)
      → IsList l ((a, x) ∷ ys)
      → non_zero x.use_counter ≡ true
      → EndsInUse ys
      → suc (length ys) < fuel
      → (l' : DoubleLinkedList T) × (collect_from fuel l l.first []
          ≡ ok (l', unused_ids ((a, x) ∷ ys)))
        × IsList l' (in_use ((a, x) ∷ ys))
  unfolding collect_from advance
  collect-in_use zero l a x ys is used ends small = absurd (omega arith)
  collect-in_use (suc fuel) l a x ys is used ends small =
      let (n, (k, q, at, e)) = element_at l [] ys a x is in
      let nonnull : (a == null) ≡ false = ground arith in
      let begins : l.first ≡ a = is.chain.0 in
      let (l', done, is') = collect_from-in_use fuel l a x [] ys [] is ends (omega arith) in
      (
        l',
        subst (λ it. collect_from (suc fuel) l it [] ≡ ok (l', unused_ids ((a, x) ∷ ys)))
            (sym begins) (rw (nonnull, load-some l.heap a (element k q x) n at, used, e) done),
        rw used is',
      )
