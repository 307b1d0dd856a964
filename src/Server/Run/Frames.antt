-- ===== src/Server/Run/Frames.antt =====
-- What a frame does when no other task comes between is a run of steps, also where it panics.
use rustkv_lab.Prelude.{ℕ, suc, Option, Bytes}
use rustkv_lab.Core.Error.{KvResult}
use rustkv_lab.Core.Time.{Clock}
use rustkv_lab.Core.Database
use rustkv_lab.Core.Sharded.{ShardedDatabase}
use rustkv_lab.Core.Sharded.Step
use rustkv_lab.Core.Sharded.Access.{Access, Accesses, nothing, one_more}
use rustkv_lab.Core.Command.{Command}
use rustkv_lab.Core.Stats
use rustkv_lab.Core.Stats.{ServerStats, ServerStatsSnapshot}
use rustkv_lab.Core.Executor.{Execution}
use rustkv_lab.Server.Aof.{AofEngine}
use rustkv_lab.Server.Config.{ServerConfig}
use rustkv_lab.Server.Client.{Server}
use rustkv_lab.Server.Ttl
use rustkv_lab.Server.Run
use rustkv_lab.Server.Run.{Runs, rests, goes_on}

abbrev pub store_after : Execution → ShardedDatabase
store_after (o, db, stats) = db

module _ (hash : Bytes → ℕ) where
  once : {db db' : ShardedDatabase} → Access hash db db' → Accesses hash db db'
  once h = one_more h (nothing _)

module _ (hash : Bytes → ℕ) (to_json_string : ServerStatsSnapshot → KvResult Bytes) where
  module _ (config : ServerConfig) where
    abbrev pub Reaches : Server → Server → Type 0
    Reaches s s' = (n : ℕ) × Runs hash config n s s'

    Accesses-Reaches :
        {db db' : ShardedDatabase} (stats stats' : ServerStats) (aof : Option AofEngine)
        → Accesses hash db db'
        → Reaches
            (record { db = db; stats = stats; aof = aof })
            (record { db = db'; stats = stats'; aof = aof })
    Accesses-Reaches stats stats' aof (nothing db) = (1, goes_on (Run.counted stats') (rests _))
    Accesses-Reaches stats stats' aof (one_more a rest) =
        let (n, run) = Accesses-Reaches stats stats' aof rest in
        (suc n, goes_on (Run.accessed a) run)

    -- A tick of the sweep is one too.
    ttl_tick-Reaches : (c : Clock) (s : Server) → Reaches s (Run.ttl_tick c s)
    unfolding Run.ttl_tick Ttl.tick
    ttl_tick-Reaches c s = Accesses-Reaches s.stats _ s.aof (once hash (Access.sweep c))
