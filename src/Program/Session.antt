-- ===== src/Program/Session.antt =====
-- What the constructors bring about and the turns keep, `main` of main.cpp ends with.
use stream_fdl.Prelude.{
  ℕ, String, ◌≡◌, refl, subst, inl, inr, Bool, not, ◌||◌, Option, none, some, List, str_eq, ◌==◌,
  Option-cases, library_error, ok, fault,
}
use stream_fdl.Prelude.After.{Any, After, IfSome, >>=-After, if-After}
use stream_fdl.Prelude.Double.{Double}
use stream_fdl.Members.{PrimaryKey}
use stream_fdl.DataStore.{Channel, DataStore, AttributeAnswer}
use stream_fdl.DataStore.Start.{make_data_store}
use stream_fdl.DynamicSubgraph.Start.{Configuration, make_builder}
use stream_fdl.Program.{System, Turn, ConfigurationFile, exit_with, run_turns, session, main}

module _ (d : Double) (ch : Channel d.Value) (P : System d → Type 0)
    (S : DataStore d.Value → Type 0) (attribute : ℕ → PrimaryKey → Option (AttributeAnswer d.Value))
    (host_name : String) (rounds : ℕ) (retry_connection : Bool) (retry_attempts : ℕ)
    (succeeds : ℕ → Bool) (turns : List (Turn d))
    (kept : (s : System d) → P s → After Any P (run_turns d ch rounds turns s))
    (started : After Any
      (IfSome S)
      (make_data_store ch rounds retry_connection retry_attempts succeeds)) where
  -- The builder is made well in a store that is as `S` says.
  abbrev pub IsBuilt : Configuration d → Type 0
  IsBuilt config =
      (ds : DataStore d.Value)
      → S ds
      → After Any (λ r. P (record { builder = r.0; store = r.1 }))
          (make_builder d ch attribute host_name config ds)

  session-After :
      (config : Configuration d)
      → IsBuilt config
      → After Any (IfSome P) (
          session d ch rounds retry_connection retry_attempts succeeds attribute host_name turns
            config)
  unfolding session
  session-After config built =
      >>=-After Any _ (make_data_store ch rounds retry_connection retry_attempts succeeds) _ started
        (λ made store. elim (Option-cases made) [
          | inl none' ↦ rw none' tt
          | inr (ds, at) ↦ rw at (
              >>=-After Any (IfSome P) (make_builder d ch attribute host_name config ds) _
                (built ds (subst (IfSome S) at store))
                (λ r ready.
                  >>=-After Any (IfSome P) (run_turns d ch rounds turns _) _ (kept _ ready)
                    (λ s p. p)))
        ])

  exit_with-IfSome : (ended : Option (System d)) → IfSome P ended → IfSome P (exit_with d ended).1
  exit_with-IfSome none p = tt
  exit_with-IfSome (some s) p = p

  read_contents :
      (file : ConfigurationFile (Configuration d))
      → After Any
          (λ c. file.contents ≡ some c)
          (elim file.contents [ none ↦ fault library_error | some c ↦ ok c ])
  read_contents file = elim (Option-cases file.contents) [
    | inl none' ↦ rw none' tt
    | inr (c, at) ↦ rw at refl
  ]

  pub main-After :
      (argc : ℕ) (file : ConfigurationFile (Configuration d))
      → ((config : Configuration d) → file.contents ≡ some config → IsBuilt config)
      → After Any
          (λ r. IfSome P r.1)
          (main d ch rounds argc file retry_connection retry_attempts succeeds attribute host_name
            turns)
  unfolding main
  main-After argc file built =
      let start =
        session d ch rounds retry_connection retry_attempts succeeds attribute host_name turns in
      if-After Any _ (not (argc == 2)) _ _ tt (
        if-After Any _ (not file.is_regular_file || not (str_eq file.extension ".json")) _ _ tt (
          if-After Any _ (not file.opens) _ _ tt (
            >>=-After Any _ (elim file.contents [ none ↦ fault library_error | some c ↦ ok c ]) _
              (read_contents file)
              (λ config at.
                >>=-After Any _ (start config) _ (session-After config (built config at))
                  (λ ended p. exit_with-IfSome ended p)))))
