-- ===== src/Program.antt =====
-- src/main.cpp, and the rounds of the threads that `DynamicSubgraphBuilder::run` of
-- src/dynamic-subgraph/dynamic-subgraph.cpp starts, as turns in any order until the signal. The
-- drawing thread changes only the request for a drawing and is left out.
use stream_fdl.Prelude.{
  ℕ, String, Bool, not, ◌||◌, Option, none, some, List, [], ◌∷◌, str_eq, ◌==◌, if◌then◌else◌,
  library_error, Outcome, ok, fault, ◌>>=◌,
}
pub mod Invariant
pub mod Kept
pub mod Session
pub mod Typed
pub mod Detecting
pub mod Interleaving
pub mod Steady
pub mod Start
use stream_fdl.Prelude.Double.{Double}
use stream_fdl.MemberPtr.{MemberPtr}
use stream_fdl.Members.{PrimaryKey, Timestamp}
use stream_fdl.Members.Attributes.{Response}
use stream_fdl.GraphView.Full.{QueryResult}
use stream_fdl.DataStore.{Channel, DataStore, AttributeAnswer}
use stream_fdl.DataStore.Messages.{Messages}
use stream_fdl.DataStore
use stream_fdl.DataStore.Start.{make_data_store}
use stream_fdl.FaultDetection
use stream_fdl.DynamicSubgraph
use stream_fdl.DynamicSubgraph.{DynamicSubgraphBuilder}
use stream_fdl.DynamicSubgraph.Start.{Configuration, make_builder}

-- What is known of the argument of the program, and what its file parses to, none where the parser
-- throws.
pub record ConfigurationFile (C : Type 0) : Type 0 where
  pub is_regular_file : Bool
  pub extension : String
  pub opens : Bool
  pub contents : Option C

module _ (d : Double) where
  open d use {Value}

  pub record System : Type 0 where
    pub builder : DynamicSubgraphBuilder d
    pub store : DataStore Value

  -- A round of one of the three threads, with what it receives.
  pub data Turn : Type 0 where
    building : (cpu_utilisation : Value) → QueryResult → Turn
    detecting : (received : String → Option (Response Value)) (now : MemberPtr → Timestamp) → Turn
    storing : Messages → Turn

  -- The exit code, by whether the client of the data store could be made.
  abbrev pub exit_with : Option System → ℕ × Option System
  exit_with none = (1, none)
  exit_with (some s) = (0, some s)

  module _ (ch : Channel Value) (rounds : ℕ) where
    unfoldable pub run_turn : Turn → System → Outcome System
    run_turn (building cpu_utilisation q) s = do
      (b, ds, emitted) ← DynamicSubgraph.run_round d ch rounds cpu_utilisation q s.builder s.store
      ok (record { builder = b; store = ds })
    run_turn (detecting received now) s = do
      (fd, w, ds) ←
          FaultDetection.Round.run_round d received now ch rounds s.builder.fault_detection
            s.builder.watchlist s.store
      ok (record { builder = record s.builder { fault_detection = fd; watchlist = w }; store = ds })
    run_turn (storing m) s = do
      (ds, unsubscribed) ← DataStore.Collect.run_round rounds m s.store
      ok (record s { store = ds })

    unfoldable pub run_turns : List Turn → System → Outcome System
    run_turns [] s = ok s
    run_turns (t ∷ ts) s = do s' ← run_turn t s; run_turns ts s'

    -- The part of `main` between the braces: the constructors, and `run` until the signal. None
    -- where the program exits before.
    unfoldable pub session :
        (retry_connection : Bool) (retry_attempts : ℕ) (succeeds : ℕ → Bool)
        (attribute : ℕ → PrimaryKey → Option (AttributeAnswer Value)) (host_name : String)
        → List Turn
        → Configuration d
        → Outcome (Option System)
    session retry_connection retry_attempts succeeds attribute host_name turns config = do
      started ← make_data_store ch rounds retry_connection retry_attempts succeeds
      elim started [
        | none ↦ ok none
        | some ds ↦ do
          (b, ds', memory) ← make_builder d ch attribute host_name config ds
          s ← run_turns turns (record { builder = b; store = ds' })
          ok (some s)
      ]

    -- `main`: the exit code, and the state at the end of `run`.
    unfoldable pub main :
        (argc : ℕ)
        → ConfigurationFile (Configuration d)
        → (retry_connection : Bool) (retry_attempts : ℕ) (succeeds : ℕ → Bool)
          (attribute : ℕ → PrimaryKey → Option (AttributeAnswer Value)) (host_name : String)
        → List Turn
        → Outcome (ℕ × Option System)
    main argc file retry_connection retry_attempts succeeds attribute host_name turns =
        if not (argc == 2)
        then ok (1, none)
        else (if not file.is_regular_file || not (str_eq file.extension ".json")
            then ok (2, none)
            else (if not file.opens then ok (3, none) else (do
              config ← (elim file.contents [ none ↦ fault library_error | some c ↦ ok c ])
              ended ←
                  session retry_connection retry_attempts succeeds attribute host_name turns config
              ok (exit_with ended))))
