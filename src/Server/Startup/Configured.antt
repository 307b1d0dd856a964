-- ===== src/Server/Startup/Configured.antt =====
-- A server that starts has a valid configuration, what its log held, and counters that tell of both.
use rustkv_lab.Prelude.{
  ℕ, ◌+◌, ◌<◌, ◌≡◌, refl, sym, ap, subst, true, Option, none, some, Bytes, length, Result, ok, err,
  arith,
}
use rustkv_lab.Core.Database.{is_some}
use rustkv_lab.Core.Sharded
use rustkv_lab.Core.Sharded.{ShardedDatabase, usize_limit}
use rustkv_lab.Core.Stats
use rustkv_lab.Server.Aof
use rustkv_lab.Server.Aof.{AofEngine, Loaded, bytes_of_file, load_and_replay}
use rustkv_lab.Server.Aof.Bounded.{
  IsBounded, new-IsBounded, LoadsAtMost, load_and_replay-LoadsAtMost,
}
use rustkv_lab.Server.Config.{ServerConfig, validate}
use rustkv_lab.Server.Client.{Server}
use rustkv_lab.Server.Startup.{
  Surroundings, Started, running, refused, crashed, out_of_fuel, engine_of, with_aof, configured,
  after_addr, after_validate, start,
}

-- The engine of a log that holds these bytes.
abbrev pub engine_for : Bytes → Option Bytes → Option AofEngine
engine_for contents none = none
engine_for contents (some path) = some (record { contents = contents; is_open = true; held = none })

pub record IsConfigured (hash : Bytes → ℕ) (config : ServerConfig) (around : Surroundings)
    (s : Server) : Type 0 where
  pub accepted : validate config ≡ ok tt
  pub listening : around.local_addr ≡ ok s.stats.addr
  pub log : s.aof ≡ engine_for (bytes_of_file around.file) config.aof_path
  pub logged : s.stats.aof_enabled ≡ is_some config.aof_path
  pub limited : s.stats.max_frame_size ≡ config.max_frame_size
  pub alone : s.stats.connected_clients ≡ 0
  pub bounded : IsBounded hash (length (bytes_of_file around.file)) s.db

-- A start that runs a server runs it as configured.
abbrev StartsWell : (Bytes → ℕ) → ServerConfig → Surroundings → Started → Type 0
StartsWell hash config around (running s) = IsConfigured hash config around s
StartsWell hash config around (refused message) = Unit
StartsWell hash config around crashed = Unit
StartsWell hash config around out_of_fuel = Unit

module _ (hash : Bytes → ℕ) where
  module _ (config : ServerConfig) (around : Surroundings) (accepted : validate config ≡ ok tt)
      (addr : Bytes) (listening : around.local_addr ≡ ok addr)
      (fits : length (bytes_of_file around.file) + 1 < usize_limit) where
    configured-StartsWell :
        (aof : Option AofEngine) (db : ShardedDatabase)
        → aof ≡ engine_for (bytes_of_file around.file) config.aof_path
        → is_some aof ≡ is_some config.aof_path
        → IsBounded hash (length (bytes_of_file around.file)) db
        → StartsWell hash config around (configured config around addr aof db)
    unfolding configured Stats.new Stats.configure_runtime
    configured-StartsWell aof db e f b = record {
      accepted = accepted;
      listening = listening;
      log = e;
      logged = f;
      limited = refl;
      alone = refl;
      bounded = b;
    }

    engine_of-StartsWell :
        (path : Bytes) (opened : Result Bytes (Unit {0})) (r : Loaded)
        → config.aof_path ≡ some path
        → LoadsAtMost hash (length (bytes_of_file around.file)) r
        → StartsWell hash config around
            (engine_of (configured config around addr) (bytes_of_file around.file) opened r)
    engine_of-StartsWell path (ok u) (Aof.loaded db) p h =
        configured-StartsWell (engine_for (bytes_of_file around.file) (some path)) db
          (ap (engine_for (bytes_of_file around.file)) (sym p)) (ap is_some (sym p)) h
    engine_of-StartsWell path (err message) (Aof.loaded db) p h = tt
    engine_of-StartsWell path opened (Aof.failed message db) p h = tt
    engine_of-StartsWell path opened (Aof.crashed db) p h = tt
    engine_of-StartsWell path opened Aof.out_of_fuel p h = tt

    with_aof-StartsWell :
        (path : Option Bytes) (db : ShardedDatabase)
        → config.aof_path ≡ path
        → IsBounded hash 0 db
        → StartsWell hash config around
            (with_aof hash (configured config around addr) path around db)
    with_aof-StartsWell none db p b =
        configured-StartsWell none db (ap (engine_for (bytes_of_file around.file)) (sym p))
          (ap is_some (sym p)) (record { valid = b.valid; few = omega (arith, b.few) })
    with_aof-StartsWell (some path) db p b =
        engine_of-StartsWell path around.opened (load_and_replay hash around.clock around.file db) p
          (load_and_replay-LoadsAtMost hash around.clock around.file db b fits)

  after_addr-StartsWell :
      (config : ServerConfig) (around : Surroundings) (r : Result Bytes Bytes)
      → validate config ≡ ok tt
      → around.local_addr ≡ r
      → length (bytes_of_file around.file) + 1 < usize_limit
      → StartsWell hash config around (after_addr hash config around r)
  after_addr-StartsWell config around (ok addr) accepted listening fits =
      with_aof-StartsWell config around accepted addr listening fits config.aof_path
        (Sharded.new config.shard_count) refl (new-IsBounded hash config.shard_count)
  after_addr-StartsWell config around (err message) accepted listening fits = tt

  after_validate-StartsWell :
      (config : ServerConfig) (around : Surroundings) (r : Result Bytes (Unit {0}))
      → validate config ≡ r
      → length (bytes_of_file around.file) + 1 < usize_limit
      → StartsWell hash config around (after_validate hash config around r)
  after_validate-StartsWell config around (ok u) accepted fits =
      after_addr-StartsWell config around around.local_addr accepted refl fits
  after_validate-StartsWell config around (err message) accepted fits = tt

  -- A server that starts, from a log of less than 2^64 - 1 bytes, was given a configuration that
  -- its validation accepts, listens at the address that its counters show, has a log exactly if a
  -- path was given, open and with what the file held, and a valid store with no more entries than
  -- the file had bytes.
  pub start-IsConfigured :
      (config : ServerConfig) (around : Surroundings) (s : Server)
      → start hash config around ≡ running s
      → length (bytes_of_file around.file) + 1 < usize_limit
      → IsConfigured hash config around s
  unfolding start
  start-IsConfigured config around s e fits =
      subst (StartsWell hash config around) e
        (after_validate-StartsWell config around (validate config) refl fits)
