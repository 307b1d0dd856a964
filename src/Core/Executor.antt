-- ===== src/Core/Executor.antt =====
-- `executor.rs`. A command runs against the store and the counters. `hash` is the standard
-- library's hasher, and `to_json_string` the serde crates' encoder of the counters.
pub mod InSync
pub mod Replies
pub mod Exchange
use rustkv_lab.Prelude.{
  ℕ, Bool, true, false, Option, none, some, List, [], ◌∷◌, ◌++◌, map, Bytes, Result, ok, err,
  if◌then◌else◌,
}
use rustkv_lab.Prelude.Int.{ℤ, pos}
use rustkv_lab.Text.{codes}
use rustkv_lab.Text.Decimal.{to_string}
use rustkv_lab.Protocol.{
  ProtocolError, incomplete, invalid_type_byte, invalid_integer, invalid_utf8, invalid_format,
}
use rustkv_lab.Protocol.Resp.{
  RespValue, simple_string, error, integer, bulk_string, array, null, from_list,
}
use rustkv_lab.Core.Error.{KvError, KvResult, protocol, io, invalid_command, storage, serde}
use rustkv_lab.Core.Time.{Clock, Outcome, returned, panicked}
use rustkv_lab.Core.Database.{as_i64}
use rustkv_lab.Core.Sharded
use rustkv_lab.Core.Sharded.{ShardedDatabase, DbOutcome}
use rustkv_lab.Core.Sharded.Step
use rustkv_lab.Core.Command
use rustkv_lab.Core.Command.{Command}
use rustkv_lab.Core.Stats
use rustkv_lab.Core.Stats.{ServerStats, ServerStatsSnapshot}

-- The `#[error(...)]` texts of `ProtocolError` and `KvError`.
unfoldable pub protocol_to_string : ProtocolError → Bytes
unfolding to_string
protocol_to_string incomplete = codes "incomplete RESP frame"
protocol_to_string (invalid_type_byte b) = codes "invalid RESP type byte: " ++ to_string b
protocol_to_string invalid_integer = codes "invalid integer"
protocol_to_string invalid_utf8 = codes "invalid utf-8"
protocol_to_string (invalid_format m) = codes "invalid RESP format: " ++ m

unfoldable pub kv_to_string : KvError → Bytes
unfolding protocol_to_string
kv_to_string (protocol e) = codes "protocol error: " ++ protocol_to_string e
kv_to_string (io m) = codes "io error: " ++ m
kv_to_string (invalid_command m) = codes "invalid command: " ++ m
kv_to_string (storage m) = codes "storage error: " ++ m
kv_to_string (serde m) = codes "serialization error: " ++ m

abbrev pub error_response : KvError → RespValue
error_response e = error (kv_to_string e)

abbrev pub result_to_ok_response : KvResult (Unit {0}) → RespValue
result_to_ok_response (ok u) = simple_string (codes "OK")
result_to_ok_response (err e) = error_response e

abbrev pub value_response : KvResult (Option Bytes) → RespValue
value_response (ok none) = null
value_response (ok (some value)) = bulk_string value
value_response (err e) = error_response e

abbrev pub count_response : KvResult ℕ → RespValue
count_response (ok count) = integer (as_i64 count)
count_response (err e) = error_response e

abbrev pub flag_response : KvResult Bool → RespValue
flag_response (ok true) = integer (pos 1)
flag_response (ok false) = integer (pos 0)
flag_response (err e) = error_response e

abbrev pub ttl_response : KvResult ℤ → RespValue
ttl_response (ok t) = integer t
ttl_response (err e) = error_response e

abbrev pub keys_response : KvResult (List Bytes) → RespValue
keys_response (ok ks) = array (from_list (map bulk_string ks))
keys_response (err e) = error_response e

abbrev pub json_response : KvResult Bytes → RespValue
json_response (ok json) = bulk_string json
json_response (err e) = error_response e

abbrev pub Execution : Type 0
Execution = Outcome RespValue × ShardedDatabase × ServerStats

-- The bookkeeping behind an operation of the store: `bump` counts the command.
abbrev pub after_outcome :
    {A : Type 0}
    → (ServerStats → ServerStats)
    → (KvResult A → RespValue)
    → ServerStats
    → Outcome (DbOutcome A) × ShardedDatabase
    → Execution
after_outcome bump respond stats (panicked, db) = (panicked, db, stats)
after_outcome bump respond stats (returned o, db) = (
  returned (respond o.result),
  db,
  Stats.incr_expired_keys_by o.expired_count (Stats.set_key_count o.key_count (bump stats)),
)

abbrev pub uncounted : ServerStats → ServerStats
uncounted stats = stats

abbrev after_flush : ServerStats → DbOutcome (Unit {0}) × ShardedDatabase → Execution
after_flush stats (o, db) =
    (returned (result_to_ok_response o.result), db, Stats.set_key_count o.key_count stats)

module _ (hash : Bytes → ℕ) (to_json_string : ServerStatsSnapshot → KvResult Bytes) where
  abbrev after_info : Clock → ServerStats → Sharded.DbInfoSnapshot × ShardedDatabase → Execution
  after_info c stats (snapshot, db) =
      let counted = Stats.incr_expired_keys_by snapshot.expired_count (
        Stats.set_memory_estimate_bytes snapshot.memory_estimate_bytes
          (Stats.set_key_count snapshot.key_count stats)) in
      let (view, stats') = Stats.snapshot c.instant counted in
      (returned (json_response (to_json_string view)), db, stats')

  -- The `match cmd`, after the command was counted.
  unfoldable pub dispatch : Clock → Command → ShardedDatabase → ServerStats → Execution
  dispatch c Command.ping db stats = (returned (simple_string (codes "PONG")), db, stats)
  dispatch c (Command.set key value expire) db stats =
      after_outcome Stats.incr_set_count result_to_ok_response stats
        (Step.set_key hash c key value expire db)
  dispatch c (Command.set_px_at key value timestamp_ms) db stats =
      after_outcome Stats.incr_set_count result_to_ok_response stats
        (Step.set_at_ms hash c key value timestamp_ms db)
  dispatch c (Command.get key) db stats =
      after_outcome Stats.incr_get_count value_response stats (Step.get hash c key db)
  dispatch c (Command.del ks) db stats =
      after_outcome Stats.incr_del_count count_response stats (Step.del hash c ks db)
  dispatch c (Command.exists key) db stats =
      after_outcome uncounted flag_response stats (Step.exists hash c key db)
  dispatch c Command.keys db stats = (returned (keys_response (Sharded.keys c db)), db, stats)
  dispatch c (Command.expire key seconds) db stats =
      after_outcome uncounted flag_response stats (Step.expire hash c key seconds db)
  dispatch c (Command.expire_at key timestamp_ms) db stats =
      after_outcome uncounted flag_response stats (Step.expire_at_ms hash c key timestamp_ms db)
  dispatch c (Command.ttl key) db stats =
      after_outcome uncounted ttl_response stats (Step.ttl hash c key db)
  dispatch c Command.flush_db db stats = after_flush stats (Sharded.flushdb db)
  dispatch c Command.info db stats = after_info c stats (Sharded.info_snapshot c db)
  dispatch c (Command.unknown name) db stats =
      (returned (error ((codes "ERR unknown command '" ++ name) ++ codes "'")), db, stats)

  -- INFO is not counted.
  abbrev pub counted : Command → ServerStats → ServerStats
  counted Command.info stats = stats
  counted _ stats = Stats.incr_total_commands stats

  unfoldable pub execute_command : Clock → Command → ShardedDatabase → ServerStats → Execution
  unfolding dispatch
  execute_command c cmd db stats = dispatch c cmd db (counted cmd stats)
