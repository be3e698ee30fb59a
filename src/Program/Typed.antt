-- ===== src/Program/Typed.antt =====
-- The class of the members in every state that the program of main.cpp ends in.
use stream_fdl.Prelude.{ℕ, suc, String, ◌≡◌, Bool, Option, some, List, ◌==◌, ok}
use stream_fdl.Prelude.After.{Any, After, IfSome, After-ok, >>=-After, Outcome-After}
use stream_fdl.Prelude.Double.{Double}
use stream_fdl.CircularBuffer
use stream_fdl.MemberPtr.{MemberPtr}
use stream_fdl.Members.{PrimaryKey, Member}
use stream_fdl.DataStore.{Channel, DataStore, AttributeAnswer, value_of, require, member_at}
use stream_fdl.DataStore.Typed.{IsTyped}
use stream_fdl.DataStore.Typed.Requests.{IsTyped-IsKept}
use stream_fdl.DataStore.Typed.Rounds.{run_round-After}
use stream_fdl.DataStore.Casts.{IsCast, IsTyped-IsCast}
use stream_fdl.DataStore.Retry.{Attempted, connected, exited, still_trying, try_make_ipc_client}
use stream_fdl.DataStore.Start.{
  search_until, find_ignored, make_data_store, get_cpu_utilisation_memory,
}
use stream_fdl.FaultDetection.Typed.{IsTyped-IsRefreshed}
use stream_fdl.DynamicSubgraph.Start.{Configuration, make_builder}
use stream_fdl.Program.{System, Turn, ConfigurationFile, main}
use stream_fdl.Program.Kept.{run_turns-After}
use stream_fdl.Program.Session.{main-After}

module _ (d : Double) (ch : Channel d.Value) where
  find_ignored-After :
      (fuel : ℕ) (made : Attempted) → After Any (IfSome (IsTyped ch)) (find_ignored ch fuel made)
  unfolding find_ignored
  find_ignored-After fuel (exited attempts) = tt
  find_ignored-After fuel still_trying = tt
  find_ignored-After fuel (connected attempt) =
      >>=-After Any _ (search_until ch fuel "/rosout" 0) _ (Outcome-After _) (λ r _.
        >>=-After Any _ (search_until ch fuel "/parameter_events" r.1) _ (Outcome-After _)
          (λ r' _. record { nodes_are = λ a e at. cc; topics_are = λ a e at. cc }))

  module _ (attribute : ℕ → PrimaryKey → Option (AttributeAnswer d.Value))
      (host_name : String) where
    get_cpu_utilisation_memory-After :
        (ds : DataStore d.Value)
        → IsTyped ch ds
        → After Any (λ r. IsTyped ch r.0) (get_cpu_utilisation_memory ch attribute host_name ds)
    unfolding get_cpu_utilisation_memory
    get_cpu_utilisation_memory-After ds typed =
        >>=-After Any _ (value_of (ch.search_topic ds.requests host_name)) _ (Outcome-After _)
          (λ primary _.
            >>=-After Any _ (value_of (attribute (suc ds.requests) primary)) _ (Outcome-After _)
              (λ answer _.
                >>=-After Any _ (require (answer.response_id == answer.sent_id)) _ (Outcome-After _)
                  (λ _ _. record { nodes_are = typed.nodes_are; topics_are = typed.topics_are })))

    make_builder-After :
        (config : Configuration d) (ds : DataStore d.Value)
        → IsTyped ch ds
        → After Any (λ r. IsTyped ch r.1) (make_builder d ch attribute host_name config ds)
    unfolding make_builder
    make_builder-After config ds typed =
        >>=-After Any _ (CircularBuffer.make config.nr_normalisation_values) _ (Outcome-After _)
          (λ alerts _.
            >>=-After Any _ (get_cpu_utilisation_memory ch attribute host_name ds) _
              (get_cpu_utilisation_memory-After ds typed) (λ r typed'. typed'))

    module _ (rounds : ℕ) (retry_connection : Bool) (retry_attempts : ℕ) (succeeds : ℕ → Bool) where
      -- What the store holds at the end.
      main-IsTyped :
          (argc : ℕ) (file : ConfigurationFile (Configuration d)) (turns : List (Turn d))
          → After Any
              (λ r. IfSome (λ s. IsTyped ch s.store) r.1)
              (main d ch rounds argc file retry_connection retry_attempts succeeds attribute
                host_name turns)
      unfolding make_data_store
      main-IsTyped argc file turns =
          main-After d ch (λ s. IsTyped ch s.store) (IsTyped ch) attribute host_name rounds
            retry_connection retry_attempts succeeds turns
            (run_turns-After d ch rounds (IsTyped ch) (IsTyped-IsKept ch rounds)
              (IsTyped-IsRefreshed d ch) (run_round-After ch rounds) turns)
            (find_ignored-After rounds
              (try_make_ipc_client rounds retry_connection retry_attempts succeeds))
            argc file (λ config _. make_builder-After config)

      -- In every state that `main` ends in, whatever the configuration, the answers of the channels
      -- and the turns of the threads were: the flag of each member behind a valid handle is that of
      -- its class, the cast that the flag asks for gives the member, so that it is defined, and the
      -- other cast fails its assertion.
      pub main-casts :
          (argc : ℕ) (file : ConfigurationFile (Configuration d)) (turns : List (Turn d)) (code : ℕ)
          (s : System d) (p : MemberPtr) (m : Member d.Value)
          → main d ch rounds argc file retry_connection retry_attempts succeeds attribute host_name
              turns
            ≡ ok (code, some s)
          → member_at s.store p ≡ some m
          → IsCast s.store p m
      main-casts argc file turns code s p m ended at =
          IsTyped-IsCast ch s.store p m
            (After-ok Any _ _ (code, some s) (main-IsTyped argc file turns) ended) at
