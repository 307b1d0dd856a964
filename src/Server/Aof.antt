-- ===== src/Server/Aof.antt =====
-- `aof.rs`. A write command is logged as the RESP frame of its absolute form, and the log is replayed
-- when the server starts. `clock` gives what the command read at an offset of the log reads.
pub mod Frames
pub mod Deadlines
pub mod Replay
pub mod Log
pub mod Bounded
pub mod Proper
pub mod Rewrite
use rustkv_lab.Prelude.{
  ℕ, zero, suc, ◌+◌, Bool, Option, none, some, List, [], ◌∷◌, ◌++◌, map, Bytes, ltb, if◌then◌else◌,
  min, length, take, drop, Result, ok, err, map_err, ◌>>=◌,
}
use rustkv_lab.Text.{codes}
use rustkv_lab.Text.Decimal.{to_string}
use rustkv_lab.Protocol.Resp.{RespFrame, bulk_string, array, from_list}
use rustkv_lab.Protocol.Encoder.{encode_resp}
use rustkv_lab.Protocol.Parser
use rustkv_lab.Protocol.Parser.{Parse, parse_resp}
use rustkv_lab.Core.Error.{KvResult}
use rustkv_lab.Core.Time.{
  Clock, Outcome, returned, panicked, current_unix_ms, unix_ms_after, from_secs, as_millis, u64_max,
}
use rustkv_lab.Core.Sharded
use rustkv_lab.Core.Sharded.{ShardedDatabase, DbOutcome, DbSnapshotEntry}
use rustkv_lab.Core.Sharded.Step
use rustkv_lab.Core.Command
use rustkv_lab.Core.Command.{Command, from_resp}
use rustkv_lab.Server.Disk.{Fault}
use rustkv_lab.Core.Executor.{protocol_to_string, kv_to_string}

-- The sum is in `u128`, where it saturates far above what the `min` lets through.
unfoldable pub expire_at_ms_from_now : Option ℕ → ℕ → ℕ
expire_at_ms_from_now none duration = min (as_millis duration) u64_max
expire_at_ms_from_now (some now) duration = min (as_millis now + as_millis duration) u64_max

unfoldable pub encode_args : List Bytes → Bytes
unfolding encode_resp
encode_args args = encode_resp (array (from_list (map bulk_string args)))

-- The `match` of `command_to_resp_bytes`; `none`: the command is not logged.
unfoldable pub args_of : Option ℕ → Command → Option (List Bytes)
unfolding to_string expire_at_ms_from_now
args_of unix (Command.set key value none) = some (codes "SET" ∷ key ∷ value ∷ [])
args_of unix (Command.set key value (some duration)) = some (
    codes "SET" ∷ key ∷ value ∷ codes "PXAT" ∷ to_string (expire_at_ms_from_now unix duration) ∷ [])
args_of unix (Command.set_px_at key value timestamp_ms) =
    some (codes "SET" ∷ key ∷ value ∷ codes "PXAT" ∷ to_string timestamp_ms ∷ [])
args_of unix (Command.del ks) = some (codes "DEL" ∷ ks)
args_of unix (Command.expire key seconds) =
    some (codes "EXPIREAT" ∷ key ∷ to_string (expire_at_ms_from_now unix (from_secs seconds)) ∷ [])
args_of unix (Command.expire_at key timestamp_ms) =
    some (codes "EXPIREAT" ∷ key ∷ to_string timestamp_ms ∷ [])
args_of unix Command.flush_db = some (codes "FLUSHDB" ∷ [])
args_of unix Command.ping = none
args_of unix (Command.get key) = none
args_of unix (Command.exists key) = none
args_of unix Command.keys = none
args_of unix (Command.ttl key) = none
args_of unix Command.info = none
args_of unix (Command.unknown name) = none

abbrev pub encoded : Option (List Bytes) → Option Bytes
encoded none = none
encoded (some args) = some (encode_args args)

unfoldable pub command_to_resp_bytes : Option ℕ → Command → Option Bytes
unfolding args_of encode_args
command_to_resp_bytes unix cmd = encoded (args_of unix cmd)

abbrev pub snapshot_command : DbSnapshotEntry → Command
snapshot_command entry = elim entry.expire_at_ms [
  | none ↦ Command.set entry.key entry.value none
  | some timestamp_ms ↦ Command.set_px_at entry.key entry.value timestamp_ms
]

-- `none`: the `expect` would panic.
unfoldable pub snapshot_entry_to_resp_bytes : Option ℕ → DbSnapshotEntry → Option Bytes
unfolding command_to_resp_bytes
snapshot_entry_to_resp_bytes unix entry = command_to_resp_bytes unix (snapshot_command entry)

-- The file, as far as its bytes have reached the disk; `rewrite` closes it while it is replaced.
-- tokio's `File` writes in the background and `sync_all` does not report how that ended: the error
-- is held for the next write.
pub record AofEngine : Type 0 where
  pub contents : Bytes
  pub is_open : Bool
  pub held : Option Bytes

-- How an `append` fails: in a part of a frame that is longer than tokio's buffer or in the `fsync`,
-- which it reports, or in the last part that it writes, which it does not, or in this and in the
-- `fsync`, whose error it reports.
pub data WriteFault : Type 0 where
  at_once : Fault → WriteFault
  late : Fault → WriteFault
  both : Fault → Bytes → WriteFault

-- How many of the frame's bytes are written all the same.
abbrev pub part : WriteFault → ℕ
part (at_once fault) = fault.written
part (late fault) = fault.written
part (both fault message) = fault.written

abbrev pub write_all : Option WriteFault → Bytes → AofEngine → Result Bytes (Unit {0}) × AofEngine
write_all none bytes engine = (ok tt, record engine { contents = engine.contents ++ bytes })
write_all (some (at_once fault)) bytes engine =
    (err fault.message, record engine { contents = engine.contents ++ take fault.written bytes })
write_all (some (late fault)) bytes engine = (
  ok tt,
  record engine {
    contents = engine.contents ++ take fault.written bytes;
    held = some fault.message;
  },
)
write_all (some (both fault message)) bytes engine = (
  err message,
  record engine {
    contents = engine.contents ++ take fault.written bytes;
    held = some fault.message;
  },
)

-- An error that is held takes the place of the write.
abbrev pub write_held :
    Option Bytes → Option WriteFault → Bytes → AofEngine → Result Bytes (Unit {0}) × AofEngine
write_held none fault bytes engine = write_all fault bytes engine
write_held (some message) fault bytes engine = (err message, record engine { held = none })

abbrev pub append_bytes :
    Option WriteFault → Option Bytes → AofEngine → Result Bytes (Unit {0}) × AofEngine
append_bytes fault none engine = (ok tt, engine)
append_bytes fault (some bytes) engine =
    if engine.is_open
    then write_held engine.held fault bytes engine
    else (err (codes "AOF file is temporarily closed"), engine)

-- `AofEngine::append`
unfoldable pub append :
    Option ℕ → Option WriteFault → Command → AofEngine → Result Bytes (Unit {0}) × AofEngine
unfolding command_to_resp_bytes
append unix fault cmd engine = append_bytes fault (command_to_resp_bytes unix cmd) engine

abbrev pub discard : {A : Type 0} → KvResult A → Result Bytes (Unit {0})
discard (ok a) = ok tt
discard (err e) = err (kv_to_string e)

abbrev pub Replayed : Type 0
Replayed = Outcome (Result Bytes (Unit {0})) × ShardedDatabase

-- `.result.map_err(command_replay_error)`
abbrev pub result_of : {A : Type 0} → Outcome (DbOutcome A) × ShardedDatabase → Replayed
result_of (panicked, db) = (panicked, db)
result_of (returned o, db) = (returned (discard o.result), db)

-- How the loading of a log ends, and the store as it is then.
pub data Loaded : Type 0 where
  loaded : ShardedDatabase → Loaded
  failed : Bytes → ShardedDatabase → Loaded
  crashed : ShardedDatabase → Loaded
  out_of_fuel : Loaded

-- The bytes of the log's file, none where there is no file.
abbrev pub bytes_of_file : Result Bytes (Option Bytes) → Bytes
bytes_of_file (ok (some bytes)) = bytes
bytes_of_file (ok none) = []
bytes_of_file (err message) = []

module _ (hash : Bytes → ℕ) where
  unfoldable pub replay_command : Clock → Command → ShardedDatabase → Replayed
  replay_command c (Command.set key value expire) db =
      result_of (Step.set_key hash c key value expire db)
  replay_command c (Command.set_px_at key value timestamp_ms) db =
      result_of (Step.set_at_ms hash c key value timestamp_ms db)
  replay_command c (Command.del ks) db = result_of (Step.del hash c ks db)
  replay_command c (Command.expire key seconds) db = result_of (Step.expire hash c key seconds db)
  replay_command c (Command.expire_at key timestamp_ms) db =
      result_of (Step.expire_at_ms hash c key timestamp_ms db)
  replay_command c Command.flush_db db =
      let (o, db') = Sharded.flushdb db in (returned (discard o.result), db')
  replay_command c Command.ping db = (returned (ok tt), db)
  replay_command c (Command.get key) db = (returned (ok tt), db)
  replay_command c (Command.exists key) db = (returned (ok tt), db)
  replay_command c Command.keys db = (returned (ok tt), db)
  replay_command c (Command.ttl key) db = (returned (ok tt), db)
  replay_command c Command.info db = (returned (ok tt), db)
  replay_command c (Command.unknown name) db = (returned (ok tt), db)

  abbrev pub after_replay : (ShardedDatabase → Loaded) → Replayed → Loaded
  after_replay next (panicked, db) = crashed db
  after_replay next (returned (err message), db) = failed message db
  after_replay next (returned (ok u), db) = next db

  abbrev pub after_decode : (Command → Loaded) → ShardedDatabase → KvResult Command → Loaded
  after_decode next db (ok cmd) = next cmd
  after_decode next db (err e) =
      failed (codes "failed to decode AOF command: " ++ kv_to_string e) db

  abbrev pub after_parse :
      (RespFrame × ℕ → Loaded) → ShardedDatabase → Parse (RespFrame × ℕ) → Loaded
  after_parse next db (Parser.ok frame) = next frame
  after_parse next db (Parser.err e) =
      failed (codes "failed to parse AOF RESP command: " ++ protocol_to_string e) db
  after_parse next db Parser.panicked = crashed db
  after_parse next db Parser.out_of_fuel = out_of_fuel

  -- The `while`, with `bytes[offset..]` and `offset`: it ends where no byte is left.
  unfoldable pub load_loop : ℕ → (ℕ → Clock) → Bytes → ℕ → ShardedDatabase → Loaded
  unfolding parse_resp from_resp replay_command protocol_to_string kv_to_string
  load_loop zero clock rest offset db = out_of_fuel
  load_loop (suc fuel) clock [] offset db = loaded db
  load_loop (suc fuel) clock (b ∷ rest) offset db =
      after_parse
        (λ (resp, consumed).
          after_decode
            (λ cmd.
              after_replay (load_loop fuel clock (drop consumed (b ∷ rest)) (offset + consumed))
                (replay_command (clock offset) cmd db))
            db (from_resp resp))
        db (parse_resp (b ∷ rest))

  -- `AofEngine::load_and_replay` on what the file holds: `ok none` if there is none, `err` if it
  -- cannot be read. Each round takes a byte at least, so the fuel is enough.
  unfoldable pub load_and_replay :
      (ℕ → Clock) → Result Bytes (Option Bytes) → ShardedDatabase → Loaded
  unfolding load_loop
  load_and_replay clock (err message) db = failed message db
  load_and_replay clock (ok none) db = loaded db
  load_and_replay clock (ok (some bytes)) db = load_loop (suc (length bytes)) clock bytes 0 db
