-- ===== src/Tests/Log.antt =====
-- The theorems on the executor, on the log and on a client's commands.
use rustkv_lab.Prelude.{
  drop, ◌++◌, ◌==◌, length, ◌&&◌, not, true, Bool, ℕ, ◌+◌, ◌≡◌, refl, true, none, some, List, [],
  ◌∷◌, arith, Bytes, ok,
}
use rustkv_lab.Text.{codes}
use rustkv_lab.Text.Utf8.{is_utf8}
use rustkv_lab.Text.Decimal.{to_string, parse_i64}
use rustkv_lab.Protocol.Resp.{simple_string, error, bulk_string, array, nil, cons}
use rustkv_lab.Protocol.Encoder.{encode_resp}
use rustkv_lab.Core.HashMap.{lookup, insert, retain}
use rustkv_lab.Core.Error.{KvResult}
use rustkv_lab.Core.Time.{Clock, from_secs}
use rustkv_lab.Core.Command.{Command, from_resp}
use rustkv_lab.Core.Sharded
use rustkv_lab.Core.Sharded.Step
use rustkv_lab.Core.Stats
use rustkv_lab.Core.Stats.{ServerStats, ServerStatsSnapshot}
use rustkv_lab.Core.Executor.{execute_command}
use rustkv_lab.Core.Executor.InSync.{InSync}
use rustkv_lab.Server.Aof.Deadlines.{IsNear, expire_at_ms_from_now-IsNear}
use rustkv_lab.Core.Executor.Replies.{execute_command-unknown}
use rustkv_lab.Protocol.Parser
use rustkv_lab.Protocol.Parser.{parse_resp}
use rustkv_lab.Protocol.Parser.RoundTrip.{NoCrlf}
use rustkv_lab.Protocol.Encoder.{crlf}
use rustkv_lab.Core.Time.{duration_until_unix_ms}
use rustkv_lab.Server.Disk.{Fault}
use rustkv_lab.Server.Aof.{
  late, expire_at_ms_from_now, append, out_of_fuel, encode_args, command_to_resp_bytes,
  load_and_replay,
}
use rustkv_lab.Server.Aof.Frames.{IsProper, ReadsBack, command_to_resp_bytes-ReadsBack}
use rustkv_lab.Server.Aof.Replay.{load_and_replay-ends}
use rustkv_lab.Server.Aof.Log.{
  Appended, append_all, empty_file, replay_log, torn, load_and_replay-torn,
}
use rustkv_lab.Server.Client.{Reading, Server, handle_command, handle_frame}
use rustkv_lab.Server.Client.Logged.{handle_command-InSync}
use rustkv_lab.Server.Client.Late.{Missed, handle_command-late}
use rustkv_lab.Server.Client.Reruns.{Reruns}
use rustkv_lab.Server.Client.Restart.{Framed, handle_frames-recovers}
use rustkv_lab.Server.Aof.Proper.{from_resp-IsProper}
use rustkv_lab.Tests.Store.{hash, clock_at, key, store, store-IsValid}

abbrev to_json : ServerStatsSnapshot → KvResult Bytes
to_json snapshot = ok []

abbrev clock : ℕ → Clock
clock offset = clock_at (1000 + offset)

abbrev stats : ServerStats
stats = Stats.set_key_count 2 (Stats.new (codes "0.1.0") 0)

abbrev set_px : Command
set_px = Command.set key (codes "v") (some (from_secs 10))

abbrev frame : Bytes
frame = encode_args (codes "SET" ∷ key ∷ codes "v" ∷ codes "PXAT" ∷ to_string 10000 ∷ [])

abbrev reading : Reading
reading = record { unix = some 0; fault = none; clock = clock_at 300 }

abbrev disk_full : Fault
disk_full = record { message = codes "no space"; written = 7 }

abbrev failing : Reading
failing = record reading { fault = some (late disk_full) }

abbrev server : Server
server = record { db = store; stats = stats; aof = some empty_file }

command_to_resp_bytes-ReadsBack_example :
    ReadsBack (Command.set_px_at key (codes "v") 10000) frame (codes "*1")
unfolding is_utf8 command_to_resp_bytes encode_args encode_resp
command_to_resp_bytes-ReadsBack_example =
    command_to_resp_bytes-ReadsBack (some 0) set_px frame (codes "*1") refl refl (omega arith)

load_and_replay-ends_example :
    (load_and_replay hash clock (ok (some (codes "*1"))) store ≡ out_of_fuel) → ⊥
load_and_replay-ends_example = load_and_replay-ends hash clock (ok (some (codes "*1"))) store

load_and_replay-torn_example :
    load_and_replay hash clock
      (ok (
        some
          (append
            (some 0)
            (some (late disk_full))
            set_px
            (append_all ((some 0, Command.flush_db) ∷ []) empty_file)).1.contents))
      store
    ≡ replay_log hash clock ((some 0, Command.flush_db) ∷ []) (torn hash clock) 0 store
unfolding is_utf8 command_to_resp_bytes encode_args encode_resp
load_and_replay-torn_example =
    load_and_replay-torn hash clock ((some 0, Command.flush_db) ∷ []) (some 0) set_px
      (late disk_full) frame store ((tt, omega arith), tt) (refl, omega arith) refl (omega arith)
      (omega arith)

abbrev flushed_before : List Appended
flushed_before = (some 0, Command.flush_db) ∷ []

abbrev flushed_server : Server
flushed_server = record {
  db = store;
  stats = stats;
  aof = some (append_all flushed_before empty_file);
}

handle_command-late_example :
    Missed hash to_json failing set_px flushed_server flushed_before disk_full frame
unfolding is_utf8 command_to_resp_bytes encode_args encode_resp
handle_command-late_example =
    handle_command-late hash to_json failing set_px flushed_server flushed_before disk_full frame
      refl refl refl ((tt, omega arith), tt) (refl, omega arith) (omega arith) (omega arith)

handle_command-InSync_example :
    InSync hash
      (handle_command hash to_json reading Command.ping server).1.db
      (handle_command hash to_json reading Command.ping server).1.stats
unfolding Step.set_key Sharded.new lookup insert retain handle_command execute_command
    Stats.set_key_count Stats.new
handle_command-InSync_example =
    handle_command-InSync hash to_json reading Command.ping server (simple_string (codes "PONG"))
      (record { valid = store-IsValid; shown = refl }) (omega arith) refl

-- A frame that is no command, a GET, and a FLUSHDB.
abbrev frames : List Framed
frames =
    (reading, codes "?")
    ∷ (reading, encode_args (codes "GET" ∷ key ∷ []))
    ∷ (reading, encode_args (codes "FLUSHDB" ∷ []))
    ∷ []

handle_frames-recovers_example :
    Reruns hash to_json clock stats
      (Command.flush_db ∷ [])
      store
      (load_and_replay hash clock (ok (some (encode_args (codes "FLUSHDB" ∷ [])))) store)
unfolding handle_frame handle_command execute_command command_to_resp_bytes encode_args encode_resp
    Step.get is_utf8 to_string parse_i64
handle_frames-recovers_example =
    handle_frames-recovers hash to_json frames server
      (record { contents = encode_args (codes "FLUSHDB" ∷ []); is_open = true; held = none }) clock
      stats store refl (refl, (refl, (refl, tt))) (omega arith, (omega arith, tt)) refl

from_resp-IsProper_example : IsProper (Command.del (key ∷ []))
unfolding from_resp is_utf8
from_resp-IsProper_example =
    from_resp-IsProper (array (cons (bulk_string (codes "DEL")) (cons (bulk_string key) nil)))
      (Command.del (key ∷ [])) refl

-- Ten seconds, logged at 1.9 ms, and loaded at 3 ms.
expire_at_ms_from_now-IsNear_example :
    IsNear 3000000
      (1900000 + from_secs 10)
      (duration_until_unix_ms (some 3000000) (expire_at_ms_from_now (some 1900000) (from_secs 10)))
expire_at_ms_from_now-IsNear_example =
    expire_at_ms_from_now-IsNear 1900000 (from_secs 10) 3000000 (omega arith)

abbrev has_no_cr : Bytes → Bool
has_no_cr [] = true
has_no_cr (a ∷ s) = not (a == 13) && has_no_cr s

has_no_cr-NoCrlf : (s : Bytes) → has_no_cr s ≡ true → NoCrlf s
has_no_cr-NoCrlf [] h = tt
has_no_cr-NoCrlf (a ∷ []) h = tt
has_no_cr-NoCrlf (a ∷ b ∷ s) h =
    (λ e. ground (arith, e, h), has_no_cr-NoCrlf (b ∷ s) (ground (arith, h)))

-- The name `X` with a forged reply behind it.
execute_command-unknown_example :
    (parse_resp (encode_resp (error (codes "ERR unknown command 'X" ++ (crlf ++ codes "+OK'"))))
      ≡ Parser.ok (
        error (codes "ERR unknown command 'X"),
        length (encode_resp (error (codes "ERR unknown command 'X"))),
      ))
    × (drop
          (length (encode_resp (error (codes "ERR unknown command 'X"))))
          (encode_resp (error (codes "ERR unknown command 'X" ++ (crlf ++ codes "+OK'"))))
        ≡ codes "+OK'" ++ crlf)
unfolding execute_command is_utf8 encode_resp
execute_command-unknown_example =
    execute_command-unknown hash to_json (clock_at 300) store stats (codes "X") (codes "+OK")
      (error (codes "ERR unknown command 'X" ++ (crlf ++ codes "+OK'"))) refl
      (refl, has_no_cr-NoCrlf (codes "ERR unknown command 'X") refl) (omega arith)
