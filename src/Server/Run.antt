-- ===== src/Server/Run.antt =====
-- What the tasks of the server do to what they share, as steps: clients come and go, commands are
-- logged and run, the workers' intervals tick. A step is what a task does while it holds a lock, so
-- the steps of a frame, and of a DEL of several keys, have those of other tasks between them. What
-- may run within a rewrite does not touch the log, and stands before or behind it.
pub mod Frames
pub mod Bounded
use rustkv_lab.Prelude.{ℕ, suc, ◌≡◌, Option, none, some, List, Bytes}
use rustkv_lab.Core.HashMap.{Map, insert}
use rustkv_lab.Core.Time.{Clock}
use rustkv_lab.Core.Command.{Command}
use rustkv_lab.Core.Sharded.{ShardedDatabase}
use rustkv_lab.Core.Sharded.Access.{Access}
use rustkv_lab.Core.Stats
use rustkv_lab.Core.Stats.{ServerStats}
use rustkv_lab.Server.Disk.{Fault, Disk, contents}
use rustkv_lab.Server.Aof.{AofEngine, WriteFault, append}
use rustkv_lab.Server.Aof.Rewrite.{Rewritten, maybe_rewrite_aof}
use rustkv_lab.Server.Config.{ServerConfig}
use rustkv_lab.Server.Client.{Server}
use rustkv_lab.Server.Ttl

-- A tick of the sweep.
unfoldable pub ttl_tick : Clock → Server → Server
unfolding Ttl.tick
ttl_tick c s = let (db, stats) = Ttl.tick c s.db s.stats in record s { db = db; stats = stats }

-- What the operating system holds when a rewrite begins: the other files, and the calls to come that
-- fail; and the error that the log's file holds when it ends. An error that the file holds when it
-- begins makes its `flush` fail, and is so one of the calls that fail.
pub record Machine : Type 0 where
  pub files : Map Bytes
  pub faults : List (Option Fault)
  pub held : Option Bytes

abbrev pub disk_of : Bytes → AofEngine → Machine → Disk
disk_of path aof machine = record {
  files = insert path aof.contents machine.files;
  faults = machine.faults;
}

abbrev pub after_rewrite : Bytes → Option Bytes → Rewritten × ShardedDatabase → Server → Server
after_rewrite path held ((result, is_open, d), db) s = record s {
  db = db;
  aof = some (record { contents = contents path d.files; is_open = is_open; held = held });
}

abbrev pub rewrite_by : Bytes → Clock → ℕ → Machine → Option AofEngine → Server → Server
rewrite_by path c min_size machine none s = s
rewrite_by path c min_size machine (some aof) s =
    after_rewrite path machine.held
      (maybe_rewrite_aof path c min_size aof.is_open s.db (disk_of path aof machine)) s

-- A tick of the rewrite worker, whose error is only logged. Without a log there is no worker.
unfoldable pub rewrite_tick : Bytes → Clock → ℕ → Machine → Server → Server
unfolding maybe_rewrite_aof insert
rewrite_tick path c min_size machine s = rewrite_by path c min_size machine s.aof s

abbrev pub client_joined : Server → Server
client_joined s = record s { stats = Stats.incr_connected_clients s.stats }

abbrev pub client_left : Server → Server
client_left s = record s { stats = Stats.decr_connected_clients s.stats }

-- One step of one task: a client joins or leaves, a counter is written, a command is appended to the
-- log under its lock, the store is accessed once, or the log is rewritten. A task that panics takes
-- no more steps.
pub data Step (hash : Bytes → ℕ) (config : ServerConfig) (s : Server) : Server → Type 0 where
  joined : Step hash config s (client_joined s)
  left : Step hash config s (client_left s)
  -- Whatever of the counters is written.
  counted : (stats : ServerStats) → Step hash config s (record s { stats = stats })
  logged :
      (unix : Option ℕ) (fault : Option WriteFault) (cmd : Command) (aof : AofEngine)
      → s.aof ≡ some aof
      → Step hash config s (record s { aof = some (append unix fault cmd aof).1 })
  accessed :
      {db : ShardedDatabase} → Access hash s.db db → Step hash config s (record s { db = db })
  rewritten :
      (path : Bytes) (c : Clock) (machine : Machine)
      → config.aof_path ≡ some path
      → Step hash config s (rewrite_tick path c config.aof_rewrite_min_size machine s)

-- A number of steps.
pub data Runs (hash : Bytes → ℕ) (config : ServerConfig) : ℕ → Server → Server → Type 0 where
  rests : (s : Server) → Runs hash config 0 s s
  goes_on :
      {n : ℕ} {s s' s'' : Server}
      → Step hash config s s'
      → Runs hash config n s' s''
      → Runs hash config (suc n) s s''
