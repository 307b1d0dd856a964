-- ===== src/Server/Startup.antt =====
-- `run_with_listener_and_shutdown` of `server.rs` up to the tasks that it spawns, `AofEngine::new`, and
-- the configuration that `main.rs` makes of its arguments.
pub mod Configured
use rustkv_lab.Prelude.{ℕ, true, Option, none, some, Bytes, Result, ok, err}
use rustkv_lab.Core.Time.{Clock, from_millis}
use rustkv_lab.Core.Database.{is_some}
use rustkv_lab.Core.Sharded
use rustkv_lab.Core.Sharded.{ShardedDatabase}
use rustkv_lab.Core.Stats
use rustkv_lab.Server.Aof
use rustkv_lab.Server.Aof.{AofEngine, Loaded, bytes_of_file, load_and_replay}
use rustkv_lab.Server.Config.{ServerConfig, validate}
use rustkv_lab.Server.Client.{Server}

-- `Args` of `main.rs`, after clap has read them; the defaults are those of the server.
pub record Args : Type 0 where
  pub addr : Bytes
  pub aof : Option Bytes
  pub max_frame_size : ℕ
  pub ttl_interval_ms : ℕ
  pub shards : ℕ
  pub aof_rewrite_interval_ms : ℕ
  pub aof_rewrite_min_size : ℕ

abbrev pub config_of : Args → ServerConfig
config_of args = record {
  addr = args.addr;
  aof_path = args.aof;
  max_frame_size = args.max_frame_size;
  ttl_interval = from_millis args.ttl_interval_ms;
  shard_count = args.shards;
  aof_rewrite_interval = from_millis args.aof_rewrite_interval_ms;
  aof_rewrite_min_size = args.aof_rewrite_min_size;
}

-- What the start reads: the listener's address, the log's file, how opening it to append ends, the
-- clocks of the replay, the package's version and the monotonic clock.
pub record Surroundings : Type 0 where
  pub local_addr : Result Bytes Bytes
  pub file : Result Bytes (Option Bytes)
  pub opened : Result Bytes (Unit {0})
  pub clock : ℕ → Clock
  pub version : Bytes
  pub started_at : ℕ

pub data Started : Type 0 where
  running : Server → Started
  refused : Bytes → Started
  crashed : Started
  out_of_fuel : Started

-- `AofEngine::new`, behind the replay.
abbrev pub engine_of :
    (Option AofEngine → ShardedDatabase → Started)
    → Bytes
    → Result Bytes (Unit {0})
    → Loaded
    → Started
engine_of next contents (ok u) (Aof.loaded db) =
    next (some (record { contents = contents; is_open = true; held = none })) db
engine_of next contents (err message) (Aof.loaded db) = refused message
engine_of next contents opened (Aof.failed message db) = refused message
engine_of next contents opened (Aof.crashed db) = crashed
engine_of next contents opened Aof.out_of_fuel = out_of_fuel

unfoldable pub configured :
    ServerConfig → Surroundings → Bytes → Option AofEngine → ShardedDatabase → Started
unfolding Stats.new Stats.configure_runtime
configured config around addr aof db = running (record {
  db = db;
  stats =
      Stats.configure_runtime addr (is_some aof) config.max_frame_size
        (Stats.new around.version around.started_at);
  aof = aof;
})

module _ (hash : Bytes → ℕ) where
  abbrev pub with_aof :
      (Option AofEngine → ShardedDatabase → Started)
      → Option Bytes
      → Surroundings
      → ShardedDatabase
      → Started
  with_aof next none around db = next none db
  with_aof next (some path) around db =
      engine_of next (bytes_of_file around.file) around.opened
        (load_and_replay hash around.clock around.file db)

  abbrev pub after_addr : ServerConfig → Surroundings → Result Bytes Bytes → Started
  after_addr config around (ok addr) =
      with_aof (configured config around addr) config.aof_path around
        (Sharded.new config.shard_count)
  after_addr config around (err message) = refused message

  abbrev pub after_validate : ServerConfig → Surroundings → Result Bytes (Unit {0}) → Started
  after_validate config around (ok u) = after_addr config around around.local_addr
  after_validate config around (err message) = refused message

  -- The server as the accept loop finds it.
  unfoldable pub start : ServerConfig → Surroundings → Started
  unfolding validate Sharded.new load_and_replay configured
  start config around = after_validate config around (validate config)
