-- ===== src/Clients/Bench.antt =====
-- The benchmark, `main.rs` of rustkv-bench: how the requests are shared among the clients, and the
-- requests of one client over its connection.
pub mod Shares
pub mod Worker
pub mod Mixed
use rustkv_lab.Prelude.{
  ℕ, zero, suc, ◌+◌, ◌-◌, ◌/◌, ◌%◌, ◌^◌, min, Bool, true, false, Option, none, some, String, List,
  [], ◌∷◌, ◌++◌, Bytes, ltb, ◌==◌, if◌then◌else◌, drop, Result, ok, err, ◌>>◌,
}
use rustkv_lab.Text.{codes}
use rustkv_lab.Text.Decimal.{to_string}
use rustkv_lab.Protocol.Resp.{RespFrame, simple_string, error, integer, bulk_string, array, null}
use rustkv_lab.Core.Executor.{protocol_to_string}
use rustkv_lab.Clients.Response.{
  Response, received, failed, panicked, out_of_fuel, and_then, Received, ErrorTexts, read_response,
  encode_command,
}

pub data BenchCommand : Type 0 where
  set : BenchCommand
  get : BenchCommand
  mixed : BenchCommand

pub record WorkerStats : Type 0 where
  pub completed : ℕ
  pub total_latency_nanos : ℕ

abbrev pub no_stats : WorkerStats
no_stats = record { completed = 0; total_latency_nanos = 0 }

pub record Args : Type 0 where
  pub addr : Bytes
  pub requests : ℕ
  pub command : BenchCommand
  pub clients : ℕ

abbrev reject_if : Bool → Bytes → Result Bytes (Unit {0})
reject_if bad message = if bad then err message else ok tt

unfoldable pub validate_args : Args → Result Bytes (Unit {0})
validate_args args =
    reject_if (args.requests == 0) (codes "--requests must be greater than 0")
    >> reject_if (args.clients == 0) (codes "--clients must be greater than 0")

-- `args.clients.min(args.requests)`
abbrev pub client_count : Args → ℕ
client_count args = min args.clients args.requests

unfoldable pub requests_for_client : ℕ → ℕ → ℕ → ℕ
requests_for_client total_requests client_count client_id =
    let base = total_requests / client_count in
    if ltb client_id (total_requests % client_count) then base + 1 else base

unfoldable pub key : String → ℕ → ℕ → Bytes
unfolding to_string
key prefix client_id sequence =
    codes prefix ++ codes ":" ++ to_string client_id ++ codes ":" ++ to_string sequence

unfoldable pub value : ℕ → ℕ → Bytes
unfolding to_string
value client_id sequence = codes "value-" ++ to_string client_id ++ codes "-" ++ to_string sequence

unfoldable pub set_args : String → ℕ → ℕ → List Bytes
unfolding key value
set_args prefix client_id sequence =
    codes "SET" ∷ key prefix client_id sequence ∷ value client_id sequence ∷ []

unfoldable pub get_args : String → ℕ → ℕ → List Bytes
unfolding key
get_args prefix client_id sequence = codes "GET" ∷ key prefix client_id sequence ∷ []

unfoldable pub command_args : BenchCommand → ℕ → ℕ → List Bytes
unfolding set_args get_args
command_args set client_id sequence = set_args "bench:set" client_id sequence
command_args get client_id sequence = get_args "bench:get" client_id sequence
command_args mixed client_id sequence =
    if sequence % 2 == 0
    then set_args "bench:mixed" client_id sequence
    else get_args "bench:mixed" client_id (sequence - 1)

pub record BenchConnection : Type 0 where
  pub stream : List (Result Bytes Bytes)
  pub buffer : Bytes
  -- how the writes to come end: `some` is an error
  pub writes : List (Option Bytes)
  -- what was written
  pub sent : Bytes

abbrev pub error_texts : ErrorTexts
error_texts = record {
  protocol = λ e. codes "invalid RESP response: " ++ protocol_to_string e;
  read = λ message. message;
  ended = codes "server closed before sending a complete response";
}

abbrev pub server_error : RespFrame → Option Bytes
server_error (error message) = some message
server_error (simple_string text) = none
server_error (integer number) = none
server_error (bulk_string bytes) = none
server_error (array values) = none
server_error null = none

abbrev unless_error : Option Bytes → Response (Unit {0})
unless_error none = received tt
unless_error (some message) = failed message

abbrev after_read :
    BenchConnection
    → Received (RespFrame × ℕ)
    → Response (RespFrame × ℕ)
    → Response (Unit {0}) × BenchConnection
after_read connection r (received (frame, consumed)) = (
  unless_error (server_error frame),
  record connection { stream = r.stream; buffer = drop consumed r.buffer },
)
after_read connection r (failed text) =
    (failed text, record connection { stream = r.stream; buffer = r.buffer })
after_read connection r panicked =
    (panicked, record connection { stream = r.stream; buffer = r.buffer })
after_read connection r out_of_fuel =
    (out_of_fuel, record connection { stream = r.stream; buffer = r.buffer })

-- `BenchConnection::read_response`
unfoldable pub receive : BenchConnection → Response (Unit {0}) × BenchConnection
unfolding read_response protocol_to_string
receive connection =
    let r = read_response error_texts connection.stream connection.buffer in
    after_read connection r r.response

abbrev wrote : Bytes → List (Option Bytes) → BenchConnection → BenchConnection
wrote bytes writes connection = record connection {
  writes = writes;
  sent = connection.sent ++ bytes;
}

unfoldable pub send_command : List Bytes → BenchConnection → Response (Unit {0}) × BenchConnection
unfolding receive encode_command
send_command args connection = elim connection.writes [
  | [] ↦ receive (wrote (encode_command args) [] connection)
  | none ∷ writes ↦ receive (wrote (encode_command args) writes connection)
  | some message ∷ writes ↦ (failed message, record connection { writes = writes })
]

abbrev pub Sent : Type 0
Sent = Response (Unit {0}) × BenchConnection

-- `?` behind a command, or behind the loop over a client's.
abbrev then_on : (BenchConnection → Sent) → Sent → Sent
then_on next (received u, connection) = next connection
then_on next (failed message, connection) = (failed message, connection)
then_on next (panicked, connection) = (panicked, connection)
then_on next (out_of_fuel, connection) = (out_of_fuel, connection)

abbrev counted : ℕ → WorkerStats → WorkerStats
counted nanos stats = record {
  completed = stats.completed + 1;
  total_latency_nanos = (stats.total_latency_nanos + nanos) % 2 ^ 128;
}

abbrev pub Worked : Type 0
Worked = Response WorkerStats × BenchConnection

abbrev after_request : (BenchConnection → Worked) → Sent → Worked
after_request next (received u, connection) = next connection
after_request next (failed message, connection) = (failed message, connection)
after_request next (panicked, connection) = (panicked, connection)
after_request next (out_of_fuel, connection) = (out_of_fuel, connection)

-- The loop over the requests from `sequence`, of which `left` are to come. `elapsed` is what the
-- clock measures of each request.
unfoldable pub run_requests :
    BenchCommand → ℕ → (ℕ → ℕ) → ℕ → ℕ → WorkerStats → BenchConnection → Worked
unfolding command_args send_command
run_requests command client_id elapsed zero sequence stats connection = (received stats, connection)
run_requests command client_id elapsed (suc left) sequence stats connection =
    after_request
      (run_requests command client_id elapsed left (sequence + 1)
        (counted (elapsed sequence) stats))
      (send_command (command_args command client_id sequence) connection)

-- `run_worker`, behind the connection.
unfoldable pub run_worker : BenchCommand → ℕ → (ℕ → ℕ) → ℕ → BenchConnection → Worked
unfolding run_requests
run_worker command client_id elapsed request_count connection =
    run_requests command client_id elapsed request_count 0 no_stats connection

-- The inner loop of `prepare_get_keys`, over the keys of a client.
prepare_client : ℕ → ℕ → ℕ → BenchConnection → Sent
unfolding set_args send_command
prepare_client client_id zero sequence connection = (received tt, connection)
prepare_client client_id (suc left) sequence connection =
    then_on (prepare_client client_id left (sequence + 1))
      (send_command (set_args "bench:get" client_id sequence) connection)

-- Its outer loop, over the clients from `client_id`.
prepare_clients : ℕ → ℕ → ℕ → ℕ → BenchConnection → Sent
unfolding prepare_client requests_for_client
prepare_clients total_requests client_count zero client_id connection = (received tt, connection)
prepare_clients total_requests client_count (suc left) client_id connection =
    then_on (prepare_clients total_requests client_count left (client_id + 1)) (
      prepare_client client_id (requests_for_client total_requests client_count client_id) 0
        connection)

unfoldable pub prepare_get_keys : ℕ → ℕ → BenchConnection → Sent
unfolding prepare_clients
prepare_get_keys total_requests client_count connection =
    prepare_clients total_requests client_count client_count 0 connection

-- The sum over the workers, in the order in which they are joined; a worker that failed ends it.
unfoldable pub join_workers : List (Response WorkerStats) → WorkerStats → Response WorkerStats
join_workers [] aggregate = received aggregate
join_workers (result ∷ results) aggregate = and_then result λ stats. join_workers results (record {
  completed = (aggregate.completed + stats.completed) % 2 ^ 64;
  total_latency_nanos = (aggregate.total_latency_nanos + stats.total_latency_nanos) % 2 ^ 128;
})
