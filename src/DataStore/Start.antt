-- ===== src/DataStore/Start.antt =====
-- The constructor of `DataStore` and `getCpuUtilisationMemory` of data-store.cpp. The waiting times
-- are left out.
use stream_fdl.Prelude.{
  ◌>>◌, ℕ, zero, suc, ◌+◌, ◌<◌, String, ◌≡◌, refl, ap, ◌∙◌, subst, Bool, false, ◌||◌, Option, none,
  some, [], arith, str_eq, ◌==◌, if◌then◌else◌, out_of_fuel, Outcome, ok, fault, ◌>>=◌,
}
use stream_fdl.DoubleLinkedList.{DoubleLinkedList, null}
use stream_fdl.Members.{PrimaryKey}
use stream_fdl.DataStore.{
  Channel, DataStore, AttributeAnswer, value_of, require, check_topic_primary_ignored,
}
use stream_fdl.DataStore.Messages.Round.{IsView}
use stream_fdl.DataStore.Retry.{Attempted, connected, exited, still_trying, try_make_ipc_client}

module _ {V : Type 0} (ch : Channel V) where
  -- A search for a topic, repeated until the key of its answer is not empty: the key, and how many
  -- requests have been sent.
  unfoldable pub search_until : (fuel : ℕ) → String → (requests : ℕ) → Outcome (PrimaryKey × ℕ)
  search_until zero name requests = fault out_of_fuel
  search_until (suc fuel) name requests =
      let again = search_until fuel name (suc requests) in
      do
        primary ← value_of (ch.search_topic requests name)
        if str_eq primary "" then again else ok (primary, suc requests)

  abbrev pub empty_list : {T : Type 0} → DoubleLinkedList T
  empty_list = record { heap = λ p. none; first = null; last = null }

  -- The constructor's body, after `tryMakeIpcClient`: none where that exits the program.
  unfoldable pub find_ignored : (fuel : ℕ) → Attempted → Outcome (Option (DataStore V))
  find_ignored fuel (exited attempts) = ok none
  find_ignored fuel still_trying = fault out_of_fuel
  find_ignored fuel (connected attempt) = do
    (rosout_key, sent) ← search_until fuel "/rosout" 0
    (parameter_events_key, sent') ← search_until fuel "/parameter_events" sent
    ok (
        some record {
          nodes = empty_list;
          topics = empty_list;
          updates = [];
          parameter_events_key = parameter_events_key;
          rosout_key = rosout_key;
          requests = sent';
        })

  -- The constructor.
  unfoldable pub make_data_store :
      (fuel : ℕ) (retry_connection : Bool) (retry_attempts : ℕ) (succeeds : ℕ → Bool)
      → Outcome (Option (DataStore V))
  make_data_store fuel retry_connection retry_attempts succeeds =
      find_ignored fuel (try_make_ipc_client fuel retry_connection retry_attempts succeeds)

  -- `getCpuUtilisationMemory`, with the address of the memory: `host_name` is this machine's name,
  -- `attribute` what the channel answers to the attribute request of a given number.
  unfoldable pub get_cpu_utilisation_memory :
      (attribute : ℕ → PrimaryKey → Option (AttributeAnswer V)) (host_name : String)
      → DataStore V
      → Outcome (DataStore V × String)
  get_cpu_utilisation_memory attribute host_name ds = do
    primary ← value_of (ch.search_topic ds.requests host_name)
    answer ← value_of (attribute (suc ds.requests) primary)
    require (answer.response_id == answer.sent_id)
    ok (record ds { requests = suc (suc ds.requests) }, answer.memory_address)

  -- From request `first` on, the topic is found by the search after `n` that found nothing.
  abbrev pub FoundAfter : String → (first n : ℕ) → PrimaryKey → Type 0
  FoundAfter name first n primary =
      ((i : ℕ) → i < n → ch.search_topic (first + i) name ≡ some "")
      × (ch.search_topic (first + n) name ≡ some primary)
      × (str_eq primary "" ≡ false)

  pub search_until-found :
      (fuel : ℕ) (name : String) (first n : ℕ) (primary : PrimaryKey)
      → FoundAfter name first n primary
      → n < fuel
      → search_until fuel name first ≡ ok (primary, suc (first + n))
  unfolding search_until
  search_until-found zero name first n primary found few = absurd (omega arith)
  search_until-found (suc fuel) name first zero primary (none', at, named) few =
      let at' : ch.search_topic first name ≡ some primary =
        subst (λ r. ch.search_topic r name ≡ some primary) (omega arith) at in
      rw (at', named) (ap (λ r. ok (primary, suc r)) (omega arith))
  search_until-found (suc fuel) name first (suc n) primary (none', at, named) few =
      let at' : ch.search_topic first name ≡ some "" =
        subst (λ r. ch.search_topic r name ≡ some "") (omega arith) (none' 0 (omega arith)) in
      rw at' (
        search_until-found fuel name (suc first) n primary
          (
            (λ i less.
                subst (λ r. ch.search_topic r name ≡ some "") (omega arith)
                  (none' (suc i) (omega arith))),
            subst (λ r. ch.search_topic r name ≡ some primary) (omega arith) at,
            named,
          )
          (omega arith)
        ∙ ap (λ r. ok (primary, suc r)) (omega arith))

  -- Where a client is made, and the searches for `/rosout` and then for `/parameter_events` find
  -- their topics after `i` and `j` searches that find nothing, the constructor waits for both: with
  -- more rounds than each, it returns a well-formed store without members and pending updates, which
  -- ignores exactly these two topics and has sent `i + j + 2` requests.
  pub make_data_store-started :
      (fuel : ℕ) (retry_connection : Bool) (retry_attempts : ℕ) (succeeds : ℕ → Bool)
      (attempt i j : ℕ) (rosout parameter_events : PrimaryKey)
      → try_make_ipc_client fuel retry_connection retry_attempts succeeds ≡ connected attempt
      → FoundAfter "/rosout" 0 i rosout
      → FoundAfter "/parameter_events" (suc i) j parameter_events
      → i < fuel
      → j < fuel
      → (ds : DataStore V) × (make_data_store fuel retry_connection retry_attempts succeeds
          ≡ ok (some ds))
        × IsView fuel ds (record { nodes = []; topics = []; updates = [] })
        × (ds.requests ≡ i + j + 2)
        × ((key : PrimaryKey)
            → check_topic_primary_ignored ds key
              ≡ (str_eq key parameter_events || str_eq key rosout))
  unfolding make_data_store find_ignored check_topic_primary_ignored
  make_data_store-started fuel retry_connection retry_attempts succeeds attempt i j rosout
        parameter_events made rosout_found events_found few few' =
      let first_search : search_until fuel "/rosout" 0 ≡ ok (rosout, suc i) =
        search_until-found fuel "/rosout" 0 i rosout rosout_found few
        ∙ ap (λ r. ok (rosout, suc r)) (omega arith) in
      (
        record {
          nodes = empty_list;
          topics = empty_list;
          updates = [];
          parameter_events_key = parameter_events;
          rosout_key = rosout;
          requests = suc (suc i + j);
        },
        ap (find_ignored fuel) made
            ∙ rw
                (
                  first_search,
                  search_until-found fuel "/parameter_events" (suc i) j parameter_events
                      events_found few',
                )
                refl,
        record {
          nodes_are = record { chain = (refl, refl); closed = λ a out. refl };
          topics_are = record { chain = (refl, refl); closed = λ a out. refl };
          updates_are = refl;
          few_nodes = omega arith;
          few_topics = omega arith;
        },
        omega arith,
        λ key. refl,
      )
