-- ===== src/Server/Client.antt =====
-- `handle_client` of `server.rs`, and the task around it: what the frames of a client do to the
-- server when no other task comes between. `Run` has the steps, between which others may come.
pub mod Logged
pub mod Late
pub mod Recovery
pub mod Reruns
pub mod Restart
use rustkv_lab.Prelude.{
  ℕ, zero, suc, ◌+◌, Bool, true, false, Option, none, some, List, [], ◌∷◌, ◌++◌, Bytes,
  if◌then◌else◌, Result, ok, err, map_err,
}
use rustkv_lab.Text.{codes}
use rustkv_lab.Protocol.Resp.{RespFrame, RespValue, error}
use rustkv_lab.Protocol.Parser
use rustkv_lab.Protocol.Parser.{Parse, parse_resp}
use rustkv_lab.Core.Error.{KvResult}
use rustkv_lab.Core.Time.{Clock, Outcome, returned, panicked}
use rustkv_lab.Core.Sharded.{ShardedDatabase}
use rustkv_lab.Core.Command
use rustkv_lab.Core.Command.{Command, from_resp}
use rustkv_lab.Core.Stats
use rustkv_lab.Core.Stats.{ServerStats, ServerStatsSnapshot}
use rustkv_lab.Core.Executor.{Execution, execute_command, protocol_to_string, kv_to_string}
use rustkv_lab.Server.Aof.{AofEngine, WriteFault, append}
use rustkv_lab.Server.Connection
use rustkv_lab.Server.Connection.{Connection, ReadValue, read_value, write_value}

unfoldable pub is_write_command : Command → Bool
is_write_command (Command.set key value expire) = true
is_write_command (Command.set_px_at key value timestamp_ms) = true
is_write_command (Command.del ks) = true
is_write_command (Command.expire key seconds) = true
is_write_command (Command.expire_at key timestamp_ms) = true
is_write_command Command.flush_db = true
is_write_command Command.ping = false
is_write_command (Command.get key) = false
is_write_command (Command.exists key) = false
is_write_command Command.keys = false
is_write_command (Command.ttl key) = false
is_write_command Command.info = false
is_write_command (Command.unknown name) = false

pub data Parsed : Type 0 where
  command : Command → Parsed
  refused : Bytes → Parsed
  crashed : Parsed
  out_of_fuel : Parsed

abbrev pub decoded : KvResult Command → Parsed
decoded (ok cmd) = command cmd
decoded (err e) = refused (codes "ERR " ++ kv_to_string e)

abbrev pub parsed : Parse (RespFrame × ℕ) → Parsed
parsed (Parser.ok (resp, consumed)) = decoded (from_resp resp)
parsed (Parser.err e) = refused (codes "ERR protocol error: " ++ protocol_to_string e)
parsed Parser.panicked = crashed
parsed Parser.out_of_fuel = out_of_fuel

unfoldable pub parse_command : Bytes → Parsed
unfolding parse_resp from_resp protocol_to_string kv_to_string
parse_command frame = parsed (parse_resp frame)

-- What the tasks share.
pub record Server : Type 0 where
  pub db : ShardedDatabase
  pub stats : ServerStats
  pub aof : Option AofEngine

pub data Reaction : Type 0 where
  reply : RespValue → Reaction
  crashed : Reaction
  out_of_fuel : Reaction

-- What a frame's work reads: the system time for the log, whether the write to the log fails, and
-- the clocks of the command.
pub record Reading : Type 0 where
  pub unix : Option ℕ
  pub fault : Option WriteFault
  pub clock : Clock

abbrev pub reaction : Outcome RespValue → Reaction
reaction (returned value) = reply value
reaction panicked = crashed

abbrev pub executed : Option AofEngine → Execution → Reaction × Server
executed aof (o, db, stats) = (reaction o, record { db = db; stats = stats; aof = aof })

-- One round of the loop: the end of the server was signalled, the signal changed to something
-- else, or a frame is read.
pub data Turn : Type 0 where
  stop : Turn
  wake : Turn
  serve : Reading → Turn

pub data Ended : Type 0 where
  finished : Ended
  failed : Bytes → Ended
  crashed : Ended
  out_of_fuel : Ended
  running : Ended

module _ (hash : Bytes → ℕ) (to_json_string : ServerStatsSnapshot → KvResult Bytes) where
  abbrev pub execute : Clock → Command → Option AofEngine → Server → Reaction × Server
  execute c cmd aof s = executed aof (execute_command hash to_json_string c cmd s.db s.stats)

  -- Behind the `append`: a command that could not be logged is not run.
  abbrev pub after_append :
      Clock → Command → Result Bytes (Unit {0}) × AofEngine → Server → Reaction × Server
  after_append c cmd (err message, aof) s = (reply (error message), record s { aof = some aof })
  after_append c cmd (ok u, aof) s = execute c cmd (some aof) s

  abbrev pub logged : Reading → Command → Option AofEngine → Server → Reaction × Server
  logged now cmd none s = execute now.clock cmd none s
  logged now cmd (some aof) s = after_append now.clock cmd (append now.unix now.fault cmd aof) s

  unfoldable pub handle_command : Reading → Command → Server → Reaction × Server
  unfolding is_write_command append execute_command
  handle_command now cmd s =
      if is_write_command cmd then logged now cmd s.aof s else execute now.clock cmd s.aof s

  abbrev pub handle_parsed : Reading → Parsed → Server → Reaction × Server
  handle_parsed now (command cmd) s = handle_command now cmd s
  handle_parsed now (refused message) s = (reply (error message), s)
  handle_parsed now Parsed.crashed s = (Reaction.crashed, s)
  handle_parsed now Parsed.out_of_fuel s = (Reaction.out_of_fuel, s)

  -- One frame, to the response.
  unfoldable pub handle_frame : Reading → Bytes → Server → Reaction × Server
  unfolding parse_command handle_command
  handle_frame now frame s = handle_parsed now (parse_command frame) s

  abbrev pub answer :
      (Connection → Server → Ended × Connection × Server)
      → Connection
      → Reaction × Server
      → Ended × Connection × Server
  answer next connection (reply value, s) = next (write_value value connection) s
  answer next connection (Reaction.crashed, s) = (Ended.crashed, connection, s)
  answer next connection (Reaction.out_of_fuel, s) = (Ended.out_of_fuel, connection, s)

  abbrev pub on_read :
      (Connection → Server → Ended × Connection × Server)
      → Reading
      → Server
      → ReadValue × Connection
      → Ended × Connection × Server
  on_read next now s (ReadValue.frame frame, connection) =
      answer next connection (handle_frame now frame s)
  on_read next now s (ReadValue.closed, connection) = (finished, connection, s)
  on_read next now s (ReadValue.failed message, connection) = (failed message, connection, s)
  on_read next now s (ReadValue.panicked, connection) = (Ended.crashed, connection, s)
  on_read next now s (ReadValue.out_of_fuel, connection) = (Ended.out_of_fuel, connection, s)

  -- The loop, for the turns that it takes.
  unfoldable pub handle_client : List Turn → Connection → Server → Ended × Connection × Server
  unfolding handle_frame read_value write_value
  handle_client [] connection s = (running, connection, s)
  handle_client (stop ∷ turns) connection s = (finished, connection, s)
  handle_client (wake ∷ turns) connection s = handle_client turns connection s
  handle_client (serve now ∷ turns) connection s =
      on_read (handle_client turns) now s (read_value connection)

  abbrev pub leave : Ended × Connection × Server → Ended × Connection × Server
  leave (finished, connection, s) =
      (finished, connection, record s { stats = Stats.decr_connected_clients s.stats })
  leave (failed message, connection, s) =
      (failed message, connection, record s { stats = Stats.decr_connected_clients s.stats })
  leave (crashed, connection, s) = (crashed, connection, s)
  leave (out_of_fuel, connection, s) = (out_of_fuel, connection, s)
  leave (running, connection, s) = (running, connection, s)

  -- The task that is spawned for a client: a panic skips the decrement.
  unfoldable pub client_task : List Turn → Connection → Server → Ended × Connection × Server
  unfolding handle_client Stats.incr_connected_clients Stats.decr_connected_clients
  client_task turns connection s =
      leave
        (handle_client turns connection (record s { stats = Stats.incr_connected_clients s.stats }))
