-- ===== src/FaultDetection/Windows.antt =====
-- Theorems on the rounds of fault-detection.cpp: the members' map and the alerts.
use stream_fdl.Prelude.{
  ℕ, String, ◌≡◌, sym, ap, subst, inl, inr, Bool, false, Option, none, some, List, [], ◌∷◌, arith,
  ◌==◌, if◌then◌else◌, Bool-cases, ok, >>=-eq-ok, ok-injective,
}
use stream_fdl.Prelude.Double.{Double}
use stream_fdl.StdMap
use stream_fdl.MemberPtr.{MemberPtr, null}
use stream_fdl.Members.Attributes.{Response, AttributeMapping}
use stream_fdl.DataStore.{DataStore}
use stream_fdl.Watchlist.{ptr_less}
use stream_fdl.FaultDetection.{
  AttributeWindow, MemberWindow, create_attr_window, update_attr_window,
}
use stream_fdl.FaultDetection.Round.{
  place_attributes, member_attributes, update_member, update_windows,
}

abbrev pub IsValidHandles : List MemberPtr → Type 0
IsValidHandles [] = Unit {0}
IsValidHandles (p ∷ ps) = ((p == null) ≡ false) × IsValidHandles ps

module _ (d : Double) where
  -- At most one entry, with a valid handle.
  abbrev pub IsSingleWindow : MemberWindow d → Type 0
  IsSingleWindow [] = Unit {0}
  IsSingleWindow ((p, t) ∷ []) = (p == null) ≡ false
  IsSingleWindow (m ∷ m' ∷ ms) = ⊥

  emplace-IsSingleWindow :
      (p : MemberPtr) (w : AttributeWindow d) (ws : MemberWindow d)
      → (p == null) ≡ false
      → IsSingleWindow ws
      → IsSingleWindow (StdMap.emplace ptr_less p w ws).0
  unfolding StdMap.emplace StdMap.find StdMap.equivalent ptr_less
  emplace-IsSingleWindow p w [] n s = n
  emplace-IsSingleWindow p w ((q, t) ∷ []) n s = ground arith
  emplace-IsSingleWindow p w (m ∷ m' ∷ ms) n s = absurd s

  modify-IsSingleWindow :
      (p : MemberPtr) (f : AttributeWindow d → AttributeWindow d) (ws : MemberWindow d)
      → IsSingleWindow ws
      → IsSingleWindow (StdMap.modify ptr_less p f ws)
  unfolding StdMap.modify
  modify-IsSingleWindow p f [] s = tt
  modify-IsSingleWindow p f ((q, t) ∷ []) s = elim (Bool-cases (StdMap.equivalent ptr_less q p)) [
    | inl e ↦ subst (λ b. IsSingleWindow (if b then (q, f t) ∷ [] else (q, t) ∷ [])) (sym e) s
    | inr e ↦ subst (λ b. IsSingleWindow (if b then (q, f t) ∷ [] else (q, t) ∷ [])) (sym e) s
  ]
  modify-IsSingleWindow p f (m ∷ m' ∷ ms) s = absurd s

  module _ (received : String → Option (Response d.Value)) where
    place_attributes-IsSingleWindow :
        (n : ℕ) (p : MemberPtr) (attributes : AttributeMapping d.Value)
        (found : Option (AttributeWindow d)) (ws ws' : MemberWindow d) (b : Bool)
        → (p == null) ≡ false
        → IsSingleWindow ws
        → place_attributes d received n p attributes found ws ≡ ok (ws', b)
        → IsSingleWindow ws'
    unfolding place_attributes
    place_attributes-IsSingleWindow n p attributes none ws ws' b v s h =
        let (w, made, kept) = >>=-eq-ok (create_attr_window d n attributes) _ h in
        subst IsSingleWindow (ap (λ o. o.0) (ok-injective kept)) (emplace-IsSingleWindow p w ws v s)
    place_attributes-IsSingleWindow n p attributes (some w) ws ws' b v s h =
        let (w', made, kept) = >>=-eq-ok (update_attr_window d attributes w) _ h in
        subst IsSingleWindow (ap (λ o. o.0) (ok-injective kept))
          (modify-IsSingleWindow p (λ _. w') ws s)

    update_member-IsSingleWindow :
        (n : ℕ) (p : MemberPtr) (ws ws' : MemberWindow d) (ds ds' : DataStore d.Value) (b : Bool)
        → (p == null) ≡ false
        → IsSingleWindow ws
        → update_member d received n p ws ds ≡ ok (ws', ds', b)
        → IsSingleWindow ws'
    unfolding update_member
    update_member-IsSingleWindow n p ws ws' ds ds' b v s h =
        let ((ds₁, attributes), run, h₁) = >>=-eq-ok (member_attributes d received p ds) _ h in
        let found = StdMap.find ptr_less p ws in
        let ((ws₁, b₁), run', kept) =
          >>=-eq-ok (place_attributes d received n p attributes found ws) _ h₁ in
        subst IsSingleWindow (ap (λ o. o.0) (ok-injective kept))
          (place_attributes-IsSingleWindow n p attributes found ws ws₁ b₁ v s run')

    -- Where the map of windows holds at most one entry, with a valid handle, and all handles of the
    -- round are valid, the map holds at most one entry after the loop that updates the windows, if
    -- the loop returns, whatever the number of members.
    pub update_windows-IsSingleWindow :
        (n : ℕ) (ps : List MemberPtr) (ws ws' : MemberWindow d) (ds ds' : DataStore d.Value)
        (left : List MemberPtr)
        → IsValidHandles ps
        → IsSingleWindow ws
        → update_windows d received n ps ws ds ≡ ok (ws', ds', left)
        → IsSingleWindow ws'
    unfolding update_windows
    update_windows-IsSingleWindow n [] ws ws' ds ds' left v s h =
        subst IsSingleWindow (ap (λ o. o.0) (ok-injective h)) s
    update_windows-IsSingleWindow n (p ∷ ps) ws ws' ds ds' left (v, vs) s h =
        let ((ws₁, ds₁, b₁), run, h₁) = >>=-eq-ok (update_member d received n p ws ds) _ h in
        let ((ws₂, ds₂, left₂), run', kept) =
          >>=-eq-ok (update_windows d received n ps ws₁ ds₁) _ h₁ in
        let s₁ = update_member-IsSingleWindow n p ws ws₁ ds ds₁ b₁ v s run in
        subst IsSingleWindow (ap (λ o. o.0) (ok-injective kept))
          (update_windows-IsSingleWindow n ps ws₁ ws₂ ds₁ ds₂ left₂ vs s₁ run')
