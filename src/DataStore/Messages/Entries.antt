-- ===== src/DataStore/Messages/Entries.antt =====
-- An update of an element in place, as the message handlers of data-store.cpp make it.
use stream_fdl.Prelude.{
  ℕ, ◌<◌, ◌≡◌, refl, ap, ◌∙◌, subst, ◌≢◌, ◌⊎◌, inl, inr, Bool, false, some, [], ◌∷◌, ◌++◌, arith,
  ◌==◌, if◌then◌else◌, Bool-cases, length, Outcome, ok,
}
use stream_fdl.DoubleLinkedList.{Ptr, null, Entry, Element, element, Heap, DoubleLinkedList, write}
use stream_fdl.DoubleLinkedList.Segment.{
  Cells, has, Seg, IsList, has-append, load-some, frame-write,
}
use stream_fdl.DoubleLinkedList.Search.{first_match, find_from-first_match}
use stream_fdl.DataStore.{modify_entry}
use stream_fdl.DataStore.Messages.{update_where, change_instance}

module _ {T : Type 0} where
  has-swap :
      (a p : Ptr) (d d' : Entry T) (xs ys : Cells T)
      → has a (xs ++ (p, d') ∷ ys) ≡ has a (xs ++ (p, d) ∷ ys)
  has-swap a p d d' xs ys = rw (has-append a xs ((p, d) ∷ ys), has-append a xs ((p, d') ∷ ys))

  -- The element at `p` within a segment, and the segment after a change of its entry.
  pub replace-Seg :
      (h : Heap T) (stop prev first last : Ptr) (xs ys : Cells T) (p : Ptr) (d d' : Entry T)
      → Seg h stop prev first (xs ++ (p, d) ∷ ys) last
      → (p ≢ null)
        × ((e : Element T) × (h p ≡ some e)
            × (e.entry ≡ d)
            × Seg
                (write h p (some (record e { entry = d' })))
                stop
                prev
                first
                (xs ++ (p, d') ∷ ys)
                last)
  unfolding write
  replace-Seg h stop prev first last [] ys p d d' (e, n, out, (q, at, s)) = (
    n,
    (
      element prev q d,
      at,
      refl,
      (
        e,
        n,
        out,
        (q, ground arith, frame-write h stop p q last ys p (some (element prev q d')) out s),
      ),
    ),
  )
  replace-Seg h stop prev first last ((a, x) ∷ xs) ys p d d' (e, n, out, (q, at, s)) =
      let (np, (el, there, is, s')) = replace-Seg h stop a q last xs ys p d d' s in
      let other : (a == p) ≡ false = ground (arith, has-append a xs ((p, d) ∷ ys)) in
      (np, (el, there, is, (e, n, has-swap a p d d' xs ys ∙ out, (q, ground arith, s'))))

  -- A change of an entry by `f`, which succeeds on it.
  pub modify_entry-IsList :
      (f : Entry T → Outcome (Entry T)) (l : DoubleLinkedList T) (xs ys : Cells T) (p : Ptr)
      (d d' : Entry T)
      → IsList l (xs ++ (p, d) ∷ ys)
      → f d ≡ ok d'
      → (l' : DoubleLinkedList T) × (modify_entry f l p ≡ ok l')
        × IsList l' (xs ++ (p, d') ∷ ys)
        × ((p == null) ≡ false)
  unfolding modify_entry write
  modify_entry-IsList f l xs ys p d d' is done =
      let (n, (e, there, same, s)) =
        replace-Seg l.heap null null l.first l.last xs ys p d d' is.chain in
      (
        record l { heap = write l.heap p (some (record e { entry = d' })) },
        rw (load-some l.heap p e n there, same, done),
        record {
          chain = s;
          closed = λ a o.
              ground
                (arith, has-append a xs ((p, d') ∷ ys), has-append a xs ((p, d) ∷ ys), is.closed a);
        },
        ground arith,
      )

module _ {T : Type 0} (test : T → Bool) where
  -- The first entry that passes the test, changed.
  unfoldable pub update_first : (T → T) → Cells T → Cells T
  update_first f [] = []
  update_first f ((a, d) ∷ xs) =
      if test d.instance_value
      then (a, record d { instance_value = f d.instance_value }) ∷ xs
      else (a, d) ∷ update_first f xs

  -- No entry passes, or the first that does splits the list.
  abbrev FirstMatch : (T → T) → Cells T → Type 0
  FirstMatch f xs =
      ((first_match test xs ≡ null) × (update_first f xs ≡ xs))
      ⊎ ((ys : Cells T) × (p : Ptr) × (d : Entry T) × (zs : Cells T) × (xs ≡ ys ++ (p, d) ∷ zs)
          × (first_match test xs ≡ p)
          × (update_first f xs ≡ ys ++ (p, record d { instance_value = f d.instance_value }) ∷ zs))

  FirstMatch-cases : (f : T → T) (xs : Cells T) → FirstMatch f xs
  unfolding first_match update_first
  FirstMatch-cases f [] = inl (refl, refl)
  FirstMatch-cases f ((a, d) ∷ xs) = elim (Bool-cases (test d.instance_value)) [
    | inl hit ↦ inr ([], a, d, xs, refl, rw hit, rw hit)
    | inr miss ↦ elim (FirstMatch-cases f xs) [
      | inl (none', same) ↦ inl (rw miss none', rw (miss, same))
      | inr (ys, p, e, zs, split, at, updated) ↦
          inr ((a, d) ∷ ys, p, e, zs, ap (λ c. (a, d) ∷ c) split, rw miss at, rw (miss, updated))
    ]
  ]

  -- On a well-formed list, and with more rounds than elements, the first element that passes the
  -- test has its instance changed by `f`, everything else and the shape of the list stay, and the
  -- address of that element is returned, or null where no element passes.
  pub update_where-update_first :
      (f : T → T) (rounds : ℕ) (l : DoubleLinkedList T) (xs : Cells T)
      → IsList l xs
      → length xs < rounds
      → (l' : DoubleLinkedList T) × (update_where test f rounds l ≡ ok (l', first_match test xs))
        × IsList l' (update_first f xs)
  unfolding update_where
  update_where-update_first f rounds l xs is small = elim (FirstMatch-cases f xs) [
    | inl (absent, same) ↦
        (l, rw (find_from-first_match test rounds l xs is small, absent), rw same is)
    | inr (ys, p, d, zs, split, at, updated) ↦
        let (l', done, is', nonnull) =
          modify_entry-IsList (change_instance f) l ys zs p d
            (record d { instance_value = f d.instance_value }) (subst (IsList l) split is) refl in
        (
          l',
          rw (find_from-first_match test rounds l xs is small, at, nonnull, done),
          rw updated is',
        )
  ]

  pub length-update_first : (f : T → T) (xs : Cells T) → length (update_first f xs) ≡ length xs
  unfolding update_first
  length-update_first f [] = refl
  length-update_first f ((a, d) ∷ xs) = ground (arith, length-update_first f xs)
