-- ===== src/Server/Run/Bounded.antt =====
-- The store of a running server is in order between any two steps of its tasks, and has no more
-- entries than the log had bytes when the server started and steps were taken since.
use rustkv_lab.Prelude.{
  ℕ, ◌+◌, ◌<◌, ◌≡◌, Bool, Option, none, some, Bytes, length, ok, err, arith, inl, inr, Bool-cases,
  ltb,
}
use rustkv_lab.Core.Time.{Clock}
use rustkv_lab.Core.Sharded.{usize_limit}
use rustkv_lab.Core.Sharded.Access
use rustkv_lab.Core.Sharded.Access.Covered.{IsCovered, Access-IsCovered}
use rustkv_lab.Prelude.{Result}
use rustkv_lab.Server.Disk.{Disk, IoError}
use rustkv_lab.Server.Aof.{AofEngine, bytes_of_file}
use rustkv_lab.Server.Aof.Rewrite.{after_size, file_size, maybe_rewrite_aof}
use rustkv_lab.Server.Config.{ServerConfig}
use rustkv_lab.Server.Client.{Server}
use rustkv_lab.Server.Startup.{Surroundings, running, start}
use rustkv_lab.Server.Startup.Configured.{start-IsConfigured}
use rustkv_lab.Server.Run.{
  rewrite_by, rewrite_tick, disk_of, Machine, Step, joined, left, counted, logged, accessed,
  rewritten, Runs, rests, goes_on,
}

module _ (hash : Bytes → ℕ) where
  module _ (n : ℕ) (s : Server) (w : IsCovered hash n s.db) (fits : n + 1 < usize_limit) where
    stays : IsCovered hash (n + 1) s.db
    stays = record {
      some_shard = w.some_shard;
      unique = w.unique;
      placed = w.placed;
      covers = w.covers;
      few = omega (arith, w.few);
    }

    after_size-IsCovered :
        (path : Bytes) (c : Clock) (min_size : ℕ) (is_open : Bool) (r : Result IoError ℕ × Disk)
        → IsCovered hash (n + 1) (after_size path c min_size is_open s.db r).1
    after_size-IsCovered path c min_size is_open (err e, d) = stays
    after_size-IsCovered path c min_size is_open (ok size, d) =
        elim (Bool-cases (ltb size min_size)) [
          | inl e ↦ rw e stays
          | inr e ↦ rw e (Access-IsCovered hash n s.db w fits (Access.snapshot c))
        ]

    rewrite_by-IsCovered :
        (path : Bytes) (c : Clock) (min_size : ℕ) (machine : Machine) (o : Option AofEngine)
        → IsCovered hash (n + 1) (rewrite_by path c min_size machine o s).db
    unfolding maybe_rewrite_aof
    rewrite_by-IsCovered path c min_size machine none = stays
    rewrite_by-IsCovered path c min_size machine (some aof) =
        after_size-IsCovered path c min_size aof.is_open (file_size path (disk_of path aof machine))

    rewrite_tick-IsCovered :
        (path : Bytes) (c : Clock) (min_size : ℕ) (machine : Machine)
        → IsCovered hash (n + 1) (rewrite_tick path c min_size machine s).db
    unfolding rewrite_tick
    rewrite_tick-IsCovered path c min_size machine =
        rewrite_by-IsCovered path c min_size machine s.aof

    Step-IsCovered :
        (config : ServerConfig) {s' : Server} → Step hash config s s' → IsCovered hash (n + 1) s'.db
    Step-IsCovered config joined = stays
    Step-IsCovered config left = stays
    Step-IsCovered config (counted stats) = stays
    Step-IsCovered config (logged unix fault cmd aof e) = stays
    Step-IsCovered config (accessed a) = Access-IsCovered hash n s.db w fits a
    Step-IsCovered config (rewritten path c machine e) =
        rewrite_tick-IsCovered path c config.aof_rewrite_min_size machine

  -- From a store that is in order.
  goes_on-IsCovered :
      (config : ServerConfig) (m : ℕ) {n : ℕ} {s s' : Server}
      → Runs hash config n s s'
      → IsCovered hash m s.db
      → m + n < usize_limit
      → IsCovered hash (m + n) s'.db
  goes_on-IsCovered config m (rests s) w fits = record {
    some_shard = w.some_shard;
    unique = w.unique;
    placed = w.placed;
    covers = w.covers;
    few = omega (arith, w.few);
  }
  goes_on-IsCovered config m (goes_on {n = k} {s = before} step run) w fits =
      let h =
        goes_on-IsCovered config (m + 1) run (Step-IsCovered m before w (omega arith) config step)
          (omega arith) in
      record {
        some_shard = h.some_shard;
        unique = h.unique;
        placed = h.placed;
        covers = h.covers;
        few = omega (arith, h.few);
      }

  -- After a server started, its tasks take steps in whatever order: clients join and leave,
  -- counters are written, commands are appended to the log with or without a failing disk, the
  -- store is accessed once, by an operation on one key or on all shards that returns or panics, and
  -- the log is rewritten; accesses to different shards that overlap stand one after the other.
  -- Then, when no access is under way, each shard has distinct keys, which belong there, the key
  -- count is no smaller than the number of entries, and no greater than the log's bytes at the
  -- start and the steps together; these are below 2^64 - 1.
  pub Runs-IsCovered :
      (config : ServerConfig) (around : Surroundings) (n : ℕ) (s s' : Server)
      → start hash config around ≡ running s
      → Runs hash config n s s'
      → length (bytes_of_file around.file) + n + 1 < usize_limit
      → IsCovered hash (length (bytes_of_file around.file) + n) s'.db
  Runs-IsCovered config around n s s' e run fits =
      let b = (start-IsConfigured hash config around s e (omega arith)).bounded in
      goes_on-IsCovered config (length (bytes_of_file around.file)) run
        (record {
          some_shard = b.valid.some_shard;
          unique = b.valid.unique;
          placed = b.valid.placed;
          covers = omega (arith, b.valid.counted);
          few = omega (arith, b.valid.counted, b.few);
        })
        (omega arith)
