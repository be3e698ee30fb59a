-- ===== src/MsgQueueMonitor.antt =====
-- src/msg-queue-monitor.cpp: the program that prints the messages of the queue. What `msgrcv`
-- answers to the copy of the message of a given number is a parameter, as is the pid of the server.
-- A key is the bit pattern of a `msgType_t` of 64 bits, a pid that of a `pid_t` of 32 bits.
use stream_fdl.Prelude.{
  ℕ, zero, suc, ◌+◌, ◌*◌, ◌/◌, ◌%◌, ◌^◌, ◌<◌, ◌≡◌, Bool, Option, none, some, List, [], ◌∷◌, map,
  arith, ◌==◌, if◌then◌else◌, length, assertion, out_of_fuel, Outcome, ok, fault, ◌>>=◌,
}

pub record TestMsg : Type 0 where
  pub key : ℕ
  pub request_id : ℕ
  pub sender_id : ℕ

pub data Received : Type 0 where
  message : TestMsg → Received
  -- `ENOMSG`.
  no_message : Received
  -- Any other error.
  failed : Received

-- What is printed of a message; the last field only of requests.
pub record Printed : Type 0 where
  pub is_request : Bool
  pub msg_type : ℕ
  pub receiver_pid : ℕ
  pub sender : Option (ℕ × ℕ)

-- `printMsg`.
unfoldable pub print_msg : (server_pseudo_pid : ℕ) → TestMsg → Printed
print_msg server_pseudo_pid msg =
    let receiver_pid = msg.key % 2 ^ 32 in
    record {
      is_request = receiver_pid == server_pseudo_pid;
      msg_type = msg.key / 2 ^ 32;
      receiver_pid = receiver_pid;
      sender =
          if receiver_pid == server_pseudo_pid then some (msg.request_id, msg.sender_id) else none;
    }

-- `receiveMsg`: the message, none where there is no more.
unfoldable pub receive_msg : (ℕ → Received) → ℕ → Outcome (Option TestMsg)
receive_msg queue idx = elim (queue idx) [
  | message msg ↦ ok (some msg)
  | no_message ↦ ok none
  | failed ↦ fault assertion
]

-- The loop of `main` from a number on, with what it prints.
unfoldable pub monitor :
    (fuel : ℕ) (server_pseudo_pid : ℕ) → (ℕ → Received) → (idx : ℕ) → Outcome (List Printed)
monitor zero server_pseudo_pid queue idx = fault out_of_fuel
monitor (suc fuel) server_pseudo_pid queue idx =
    let rest = monitor fuel server_pseudo_pid queue (suc idx) in
    do
      received ← receive_msg queue idx
      elim received [
        | none ↦ ok []
        | some msg ↦ do printed ← rest; ok (print_msg server_pseudo_pid msg ∷ printed)
      ]

-- From number `idx` on, the queue holds these messages and then no more.
abbrev pub Holds : (ℕ → Received) → ℕ → List TestMsg → Type 0
Holds queue idx [] = queue idx ≡ no_message
Holds queue idx (msg ∷ msgs) = (queue idx ≡ message msg) × Holds queue (suc idx) msgs

receive_msg-none :
    (queue : ℕ → Received) (idx : ℕ) → queue idx ≡ no_message → receive_msg queue idx ≡ ok none
unfolding receive_msg
receive_msg-none queue idx at = rw (receive_msg, at)

receive_msg-some :
    (queue : ℕ → Received) (idx : ℕ) (msg : TestMsg)
    → queue idx ≡ message msg
    → receive_msg queue idx ≡ ok (some msg)
unfolding receive_msg
receive_msg-some queue idx msg at = rw (receive_msg, at)

-- Where the queue holds some messages and then no more, the monitor prints each of them once, in
-- order, and ends, with more rounds than messages.
pub monitor-all :
    (fuel server_pseudo_pid : ℕ) (queue : ℕ → Received) (idx : ℕ) (msgs : List TestMsg)
    → Holds queue idx msgs
    → length msgs < fuel
    → monitor fuel server_pseudo_pid queue idx ≡ ok (map (print_msg server_pseudo_pid) msgs)
unfolding monitor
monitor-all zero server_pseudo_pid queue idx msgs holds few = absurd (omega arith)
monitor-all (suc fuel) server_pseudo_pid queue idx [] holds few =
    rw (receive_msg-none queue idx holds)
monitor-all (suc fuel) server_pseudo_pid queue idx (msg ∷ msgs) (at, holds) few = rw (
  receive_msg-some queue idx msg at,
  monitor-all fuel server_pseudo_pid queue (suc idx) msgs holds (omega arith),
)

-- A key that is put together from a message type and a pid of 32 bits each is taken apart into the
-- two, and the message is printed as a request, with its sender, exactly when the pid is the
-- server's.
pub print_msg-fields :
    (server_pseudo_pid type pid request_id sender_id : ℕ)
    → type < 2 ^ 32
    → pid < 2 ^ 32
    → print_msg server_pseudo_pid
        (record { key = type * 2 ^ 32 + pid; request_id = request_id; sender_id = sender_id })
      ≡ record {
        is_request = pid == server_pseudo_pid;
        msg_type = type;
        receiver_pid = pid;
        sender = if pid == server_pseudo_pid then some (request_id, sender_id) else none;
      }
unfolding print_msg
print_msg-fields server_pseudo_pid type pid request_id sender_id small small' =
    let low : (type * 2 ^ 32 + pid) % 2 ^ 32 ≡ pid = omega arith in
    let high : (type * 2 ^ 32 + pid) / 2 ^ 32 ≡ type = omega arith in rw (low, high)
