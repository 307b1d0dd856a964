-- ===== src/Tests/Programs.antt =====
-- The theorems on the programs that talk to the server, at small requests and replies.
use rustkv_lab.Prelude.{ℕ, ◌≡◌, refl, none, some, List, [], ◌∷◌, arith, All, Bytes, bytes_eq, ok}
use rustkv_lab.Text.{codes}
use rustkv_lab.Text.Utf8.{is_utf8}
use rustkv_lab.Text.Decimal.{to_string}
use rustkv_lab.Protocol.Resp.{bulk_string, array, nil, cons}
use rustkv_lab.Protocol.Encoder.{crlf, encode_resp}
use rustkv_lab.Core.Command.{Command}
use rustkv_lab.Core.Time.{from_secs}
use rustkv_lab.Core.Executor.{execute_command}
use rustkv_lab.Core.Sharded
use rustkv_lab.Core.Sharded.Step
use rustkv_lab.Core.HashMap.{lookup, insert, retain}
use rustkv_lab.Core.Stats
use rustkv_lab.Core.Stats.{ServerStatsSnapshot}
use rustkv_lab.Core.Error.{KvResult}
use rustkv_lab.Server.Aof.Frames.{ReadsBack}
use rustkv_lab.Server.Client.{Reading, Server, reply, handle_command, handle_frame}
use rustkv_lab.Server.Connection.Chunks.{reads_of}
use rustkv_lab.Clients.Response.{received, encode_command}
use rustkv_lab.Clients.Cli
use rustkv_lab.Clients.Cli.Requests.{into_args-ReadsBack}
use rustkv_lab.Clients.Cli.Printed.{IsTerminal, format_resp_lines-IsTerminal}
use rustkv_lab.Clients.Cli.OneShot.{run_one_shot_served}
use rustkv_lab.Tests.Store.{hash, clock_at, key, store}

abbrev pub to_json : ServerStatsSnapshot → KvResult Bytes
to_json snapshot = ok (codes "{}")

abbrev pub reading : Reading
reading = record { unix = some 0; fault = none; clock = clock_at 300 }

abbrev pub server : Server
server = record {
  db = store;
  stats = Stats.set_key_count 2 (Stats.new (codes "0.1.0") 0);
  aof = none;
}

abbrev expiring : Cli.ClientCommand
expiring = Cli.set key (codes "v") (some 10) none

abbrev expiring_args : List Bytes
expiring_args = codes "SET" ∷ key ∷ codes "v" ∷ codes "EX" ∷ to_string 10 ∷ []

into_args-ReadsBack_example :
    ReadsBack
      (Command.set key (codes "v") (some (from_secs 10)))
      (encode_command expiring_args)
      (codes "*1")
unfolding is_utf8 Cli.into_args encode_command to_string
into_args-ReadsBack_example =
    into_args-ReadsBack expiring expiring_args (codes "*1") (refl, omega arith) refl (omega arith)

-- The reply `$1 v`, cut after two bytes.
abbrev pub value_chunks : List (ℕ × Bytes)
value_chunks = (b'$', b'1' ∷ []) ∷ (13, 10 ∷ b'v' ∷ crlf) ∷ []

run_one_shot_served_example :
    (handle_frame hash to_json reading (encode_command (codes "GET" ∷ key ∷ [])) server ≡ (
      reply (bulk_string (codes "v")),
      (handle_command hash to_json reading (Command.get key) server).1,
    ))
    × (Cli.run_one_shot (Cli.get key) (Cli.linked (reads_of value_chunks)) ≡ (
      encode_command (codes "GET" ∷ key ∷ []),
      received (Cli.format_resp_lines (bulk_string (codes "v")) 0),
    ))
unfolding is_utf8 Cli.into_args encode_command to_string encode_resp handle_command execute_command
    Step.get Step.set_key Sharded.new lookup insert retain bytes_eq Stats.set_key_count Stats.new
run_one_shot_served_example =
    run_one_shot_served hash to_json (Cli.get key) (codes "GET" ∷ key ∷ []) reading server _
      (bulk_string (codes "v")) value_chunks refl refl (omega arith) refl tt (omega arith) refl

-- An escape character in a bulk string.
format_resp_lines-IsTerminal_example :
    All IsTerminal (Cli.format_resp_lines (array (cons (bulk_string (27 ∷ [])) nil)) 0)
format_resp_lines-IsTerminal_example =
    format_resp_lines-IsTerminal (array (cons (bulk_string (27 ∷ [])) nil)) 0
      ((omega arith, tt), tt)
