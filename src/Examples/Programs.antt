-- ===== src/Examples/Programs.antt =====
-- The monitor of the message queue and the start of the program at concrete inputs.
use stream_fdl.Prelude.{
  ℕ, ◌+◌, ◌*◌, ◌^◌, ◌≡◌, refl, true, none, some, [], ◌∷◌, arith, ◌==◌, if◌then◌else◌, ok,
}
use stream_fdl.Prelude.Double.{whole}
use stream_fdl.Members.Attributes.{numerical}
use stream_fdl.DataStore.{AttributeAnswer}
use stream_fdl.DynamicSubgraph.Start.{Configuration}
use stream_fdl.GraphView.Full.{QueryResult}
use stream_fdl.Program.{ConfigurationFile}
use stream_fdl.MsgQueueMonitor.{
  TestMsg, Received, message, no_message, print_msg, monitor, monitor-all, print_msg-fields,
}

abbrev request : TestMsg
request = record { key = 3 * 2 ^ 32 + 1; request_id = 5; sender_id = 77 }

abbrev queue : ℕ → Received
queue n = if n == 0 then message request else no_message

monitor-all_example : monitor 2 1 queue 0 ≡ ok (print_msg 1 request ∷ [])
monitor-all_example = monitor-all 2 1 queue 0 (request ∷ []) (refl, refl) (omega arith)

print_msg-fields_example :
    print_msg 1 request
    ≡ record { is_request = true; msg_type = 3; receiver_pid = 1; sender = some (5, 77) }
print_msg-fields_example = print_msg-fields 1 3 1 5 77 (omega arith) (omega arith)

abbrev pub config : Configuration whole
config = record {
  initial_watchlist_members = none;
  moving_window_size = 4;
  nr_normalisation_values = 3;
  abortion_criteria_threshold = 2;
  blindspot_interval = 10;
  blindspot_cpu_threshold = 80;
}

abbrev config_file : ConfigurationFile (Configuration whole)
config_file = record {
  is_regular_file = true;
  extension = ".json";
  opens = true;
  contents = some config;
}

abbrev pub load : AttributeAnswer ℕ
load = record { sent_id = 6; response_id = 6; memory_address = "/cpu"; first = numerical 0 }

abbrev pub empty_reply : QueryResult
empty_reply = record { active = []; passive = []; subs = []; pubs = []; sends = [] }
