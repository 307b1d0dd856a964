-- ===== src/Server/Ttl.antt =====
-- `ttl.rs`: the background sweep, one tick of its interval.
use rustkv_lab.Prelude.{ℕ, ◌<◌, refl, Bytes}
use rustkv_lab.Core.Time.{Clock}
use rustkv_lab.Core.Sharded
use rustkv_lab.Core.Sharded.{ShardedDatabase, usize_limit}
use rustkv_lab.Core.Sharded.Valid.{IsValid, total}
use rustkv_lab.Core.Sharded.Sweep.{remove_expired-IsValid}
use rustkv_lab.Core.Stats
use rustkv_lab.Core.Stats.{ServerStats}
use rustkv_lab.Core.Executor.InSync.{InSync}

abbrev swept_stats : ℕ × ℕ → ServerStats → ServerStats
swept_stats (removed, key_count) stats =
    Stats.set_key_count key_count (Stats.incr_expired_keys_by removed stats)

unfoldable pub tick : Clock → ShardedDatabase → ServerStats → ShardedDatabase × ServerStats
unfolding Sharded.remove_expired Stats.set_key_count Stats.incr_expired_keys_by
tick c db stats = let (report, db') = Sharded.remove_expired c db in (db', swept_stats report stats)

-- A tick of the background sweep on a valid store of fewer than 2^64 entries leaves it valid, and
-- counters that show its key count, also if they did not before.
pub tick-InSync :
    (hash : Bytes → ℕ) (c : Clock) (db : ShardedDatabase) (stats : ServerStats)
    → IsValid hash db
    → total db.shards < usize_limit
    → InSync hash (tick c db stats).0 (tick c db stats).1
unfolding tick Sharded.remove_expired
tick-InSync hash c db stats v fits = record {
  valid = (remove_expired-IsValid hash c db v fits).0;
  shown = refl;
}
