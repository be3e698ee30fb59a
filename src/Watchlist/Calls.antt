-- ===== src/Watchlist/Calls.antt =====
-- Any sequence of calls on the watchlist of watchlist.cpp.
use stream_fdl.Prelude.{
  ℕ, ◌≡◌, sym, ap, ◌∙◌, subst, Bool, true, false, ◌||◌, List, [], ◌∷◌, ◌++◌, any, Outcome, ok,
  ◌>>=◌, >>=-eq-ok, ok-injective,
}
use stream_fdl.MemberPtr.{MemberPtr}
use stream_fdl.Members.{PrimaryKey, MemberProxy}
use stream_fdl.DataStore.{Channel, DataStore}
use stream_fdl.DataStore.Lookup.{NewIsValid}
use stream_fdl.Watchlist.{
  Watchlist, WatchlistMemberType, reset, notify_used, add_member, try_initialise, get_members,
  copy_all, destroy_all, add_member_ptr,
}
use stream_fdl.Watchlist.Runs.{
  IsSingle, notify_used-same, add_member_ptr-same, add_member-same, try_initialise-IsSingle,
}

module _ {V : Type 0} where
  module _ (ch : Channel V) (rounds : ℕ) (valid : NewIsValid ch) where
    -- The calls that other parts of the program make.
    pub data Call : Type 0 where
      adding : MemberProxy → WatchlistMemberType → Call
      adding_ptr : MemberPtr → WatchlistMemberType → Call
      getting resetting : Call
      notifying : PrimaryKey → Call

    -- One call; where `notify_used` is called, its answer is kept.
    abbrev pub call : Call → Watchlist → DataStore V → Outcome (Watchlist × DataStore V × List Bool)
    call (adding member t) w ds = do
      (w', ds') ← add_member ch rounds member t w ds
      ok (w', ds', [])
    call (adding_ptr p t) w ds = do (w', ds') ← add_member_ptr p t w ds; ok (w', ds', [])
    call getting w ds = do (w', ds', ps) ← get_members ch rounds w ds; ok (w', ds', [])
    call resetting w ds = do (w', ds') ← reset w ds; ok (w', ds', [])
    call (notifying key) w ds = do (w', ds', b) ← notify_used key w ds; ok (w', ds', b ∷ [])

    call-IsSingle :
        (c : Call) (w w' : Watchlist) (ds ds' : DataStore V) (bs : List Bool)
        → IsSingle w.members
        → call c w ds ≡ ok (w', ds', bs)
        → IsSingle w'.members × (any (λ b. b) bs ≡ false)
    unfolding get_members reset
    call-IsSingle (adding member t) w w' ds ds' bs s h =
        let ((w₁, ds₁), run, kept) = >>=-eq-ok (add_member ch rounds member t w ds) _ h in
        let w₁-same = add_member-same ch rounds valid member t w w₁ ds ds₁ s run in
        (
          subst IsSingle (ap Watchlist.members (sym w₁-same ∙ ap (λ o. o.0) (ok-injective kept))) s,
          sym (ap (λ o. any (λ b. b) o.2) (ok-injective kept)),
        )
    call-IsSingle (adding_ptr p t) w w' ds ds' bs s h =
        let ((w₁, ds₁), run, kept) = >>=-eq-ok (add_member_ptr p t w ds) _ h in
        let w₁-same = add_member_ptr-same p t w w₁ ds ds₁ s run in
        (
          subst IsSingle (ap Watchlist.members (sym w₁-same ∙ ap (λ o. o.0) (ok-injective kept))) s,
          sym (ap (λ o. any (λ b. b) o.2) (ok-injective kept)),
        )
    call-IsSingle getting w w' ds ds' bs s h =
        let ((w₁, ds₁, ps), run, kept) = >>=-eq-ok (get_members ch rounds w ds) _ h in
        let ((w₂, ds₂), run', kept') = >>=-eq-ok (try_initialise ch rounds w ds) _ run in
        let ((ps', ds₃), run'', kept'') = >>=-eq-ok (copy_all w₂.members ds₂) _ kept' in
        let single = try_initialise-IsSingle ch rounds valid w w₂ ds ds₂ s run' in
        (
          subst IsSingle
              (ap Watchlist.members
                (ap (λ o. o.0) (ok-injective kept'') ∙ ap (λ o. o.0) (ok-injective kept)))
              single,
          sym (ap (λ o. any (λ b. b) o.2) (ok-injective kept)),
        )
    call-IsSingle resetting w w' ds ds' bs s h =
        let ((w₁, ds₁), run, kept) = >>=-eq-ok (reset w ds) _ h in
        let (ds₂, run', kept') = >>=-eq-ok (destroy_all w.members ds) _ run in
        (
          subst IsSingle
              (ap Watchlist.members
                (ap (λ o. o.0) (ok-injective kept') ∙ ap (λ o. o.0) (ok-injective kept)))
              tt,
          sym (ap (λ o. any (λ b. b) o.2) (ok-injective kept)),
        )
    call-IsSingle (notifying key) w w' ds ds' bs s h =
        let ((w₁, ds₁, b), run, kept) = >>=-eq-ok (notify_used key w ds) _ h in
        let (w₁-same, b-false) = notify_used-same key w w₁ ds ds₁ b s run in
        (
          subst IsSingle (ap Watchlist.members (sym w₁-same ∙ ap (λ o. o.0) (ok-injective kept))) s,
          sym (ap (λ o. any (λ b. b) o.2) (ok-injective kept)) ∙ ap (λ b. b || false) b-false,
        )

    abbrev pub calls :
        List Call → Watchlist → DataStore V → Outcome (Watchlist × DataStore V × List Bool)
    calls [] w ds = ok (w, ds, [])
    calls (c ∷ cs) w ds = do
      (w', ds', bs) ← call c w ds
      (w'', ds'', bs') ← calls cs w' ds'
      ok (w'', ds'', bs ++ bs')

    any_id-append :
        (bs bs' : List Bool)
        → any (λ b. b) bs ≡ false
        → any (λ b. b) bs' ≡ false
        → any (λ b. b) (bs ++ bs') ≡ false
    any_id-append [] bs' e e' = e'
    any_id-append (true ∷ bs) bs' e e' = e
    any_id-append (false ∷ bs) bs' e e' = any_id-append bs bs' e e'

    -- Where the map holds at most one entry, a valid handle of type `initial`, and new elements of
    -- the lists have valid addresses, so it is after any calls of the two `addMember`, `getMembers`, `reset`
    -- and `notifyUsed` that return, and `notifyUsed` has answered false each time.
    pub calls-IsSingle :
        (cs : List Call) (w w' : Watchlist) (ds ds' : DataStore V) (bs : List Bool)
        → IsSingle w.members
        → calls cs w ds ≡ ok (w', ds', bs)
        → IsSingle w'.members × (any (λ b. b) bs ≡ false)
    calls-IsSingle [] w w' ds ds' bs s h = (
      subst IsSingle (ap (λ o. o.0.members) (ok-injective h)) s,
      sym (ap (λ o. any (λ b. b) o.2) (ok-injective h)),
    )
    calls-IsSingle (c ∷ cs) w w' ds ds' bs s h =
        let ((w₁, ds₁, bs₁), run, h₁) = >>=-eq-ok (call c w ds) _ h in
        let ((w₂, ds₂, bs₂), run', kept) = >>=-eq-ok (calls cs w₁ ds₁) _ h₁ in
        let (s₁, n₁) = call-IsSingle c w w₁ ds ds₁ bs₁ s run in
        let (s₂, n₂) = calls-IsSingle cs w₁ w₂ ds₁ ds₂ bs₂ s₁ run' in
        (
          subst IsSingle (ap (λ o. o.0.members) (ok-injective kept)) s₂,
          ap (λ o. any (λ b. b) o.2) (sym (ok-injective kept)) ∙ any_id-append bs₁ bs₂ n₁ n₂,
        )
