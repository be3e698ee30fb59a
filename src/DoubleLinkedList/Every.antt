-- ===== src/DoubleLinkedList/Every.antt =====
-- What holds of every instance in the heap under the operations of double-linked-list.cpp, whether
-- the list is well-formed or not.
use stream_fdl.Prelude.{
  ℕ, ◌≡◌, refl, sym, ap, ◌∙◌, subst, inl, inr, false, Option, none, some, arith, ◌==◌,
  if◌then◌else◌, ==_iff, Bool-cases, Option-cases, ok,
}
use stream_fdl.Prelude.After.{Any, After, >>=-After, if-After, Outcome-After}
use stream_fdl.DoubleLinkedList.{
  Ptr, null, Element, Heap, DoubleLinkedList, write, load, set_next, set_prev, delete, emplace_back,
  erase,
}

module _ {T : Type 0} where
  -- Each instance is as `P` says of one at its address.
  abbrev pub Every : (Ptr → T → Type 0) → Heap T → Type 0
  Every P h = (a : Ptr) (e : Element T) → h a ≡ some e → P a e.entry.instance_value

  pub write-Every :
      (P : Ptr → T → Type 0) (h : Heap T) (p : Ptr) (c : Option (Element T))
      → ((a : Ptr) (e : Element T) → (a == p) ≡ false → h a ≡ some e → P a e.entry.instance_value)
      → ((e : Element T) → c ≡ some e → P p e.entry.instance_value)
      → Every P (write h p c)
  unfolding write
  write-Every P h p c others this a e at = elim (Bool-cases (a == p)) [
    | inl same ↦
        subst (λ q. P q e.entry.instance_value) (sym ((==_iff a p).0 same)) (this e (ground arith))
    | inr other ↦ others a e other (ground arith)
  ]

  -- What a successful read finds.
  pub load-After :
      (h : Heap T) (p : Ptr) → After Any (λ e. ((p == null) ≡ false) × (h p ≡ some e)) (load h p)
  unfolding load
  load-After h p = elim (Bool-cases (p == null)) [
    | inl empty ↦ rw empty tt
    | inr valid ↦ elim (Option-cases (h p)) [
      | inl missing ↦ rw (valid, missing) tt
      | inr (e, at) ↦ rw (valid, at) (refl, refl)
    ]
  ]

  module _ (P : Ptr → T → Type 0) where
    -- A write of links alone.
    relink-Every :
        (h : Heap T) (p : Ptr) (e : Element T) (change : Element T → Element T)
        → ((e' : Element T) → (change e').entry ≡ e'.entry)
        → h p ≡ some e
        → Every P h
        → Every P (write h p (some (change e)))
    relink-Every h p e change kept at every =
        write-Every P h p (some (change e)) (λ a e' _ at'. every a e' at')
          (λ e' same.
            subst (λ x. P p x.instance_value)
              (sym (kept e) ∙ ap (λ o. elim o [ none ↦ e.entry | some x ↦ x.entry ]) same)
              (every p e at))

    set_next-Every : (h : Heap T) (p q : Ptr) → Every P h → After Any (Every P) (set_next h p q)
    unfolding set_next
    set_next-Every h p q every =
        >>=-After Any (Every P) (load h p) _ (load-After h p)
          (λ e found. relink-Every h p e (λ x. record x { next = q }) (λ x. refl) found.1 every)

    set_prev-Every : (h : Heap T) (p q : Ptr) → Every P h → After Any (Every P) (set_prev h p q)
    unfolding set_prev
    set_prev-Every h p q every =
        >>=-After Any (Every P) (load h p) _ (load-After h p)
          (λ e found. relink-Every h p e (λ x. record x { prev = q }) (λ x. refl) found.1 every)

    delete-Every : (h : Heap T) (p : Ptr) → Every P h → After Any (Every P) (delete h p)
    unfolding delete
    delete-Every h p every =
        >>=-After Any (Every P) (load h p) _ (load-After h p)
          (λ e found. write-Every P h p none (λ a e' _ at'. every a e' at') (λ e' same. cc))

    pub erase-Every :
        (l : DoubleLinkedList T) (it : Ptr)
        → Every P l.heap
        → After Any (λ r. Every P r.0.heap) (erase l it)
    unfolding erase
    erase-Every l it every = >>=-After Any _ (load l.heap it) _ (Outcome-After _) (λ curr _.
        >>=-After Any _
          (if curr.prev == null then ok l.heap else set_next l.heap curr.prev curr.next) _
          (if-After Any (Every P) (curr.prev == null) _ _ every
            (set_next-Every l.heap curr.prev curr.next every))
          (λ h every₁.
            >>=-After Any _ (if curr.next == null then ok h else set_prev h curr.next curr.prev) _
              (if-After Any (Every P) (curr.next == null) _ _ every₁
                (set_prev-Every h curr.next curr.prev every₁))
              (λ h' every₂.
                >>=-After Any _ (delete h' it) _ (delete-Every h' it every₂) (λ _ every₃. every₃))))

    -- The iterator that is returned is the new element's address, whose instance is the new one.
    pub emplace_back-Every :
        (l : DoubleLinkedList T) (fresh : Ptr) (instance_value : T) (request_id : ℕ)
        → ((a : Ptr) (e : Element T)
            → (a == fresh) ≡ false
            → l.heap a ≡ some e
            → P a e.entry.instance_value)
        → P fresh instance_value
        → After Any
            (λ r. (r.1 ≡ fresh) × Every P r.0.heap)
            (emplace_back l fresh instance_value request_id)
    unfolding emplace_back
    emplace_back-Every l fresh instance_value request_id others new =
        let every = write-Every P l.heap fresh _ others (λ e same.
          subst (P fresh)
            (ap (λ o. elim o [ none ↦ instance_value | some x ↦ x.entry.instance_value ]) same)
            new) in
        if-After Any (λ r. (r.1 ≡ fresh) × Every P r.0.heap) (l.last == null) _ _ (refl, every)
          (>>=-After Any _ (set_next _ l.last fresh) _ (set_next-Every _ l.last fresh every)
            (λ _ every'. (refl, every')))
