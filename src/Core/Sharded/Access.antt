-- ===== src/Core/Sharded/Access.antt =====
-- What is done to the store under one taking of its locks, by whichever task: an operation on one
-- key under the lock of its shard, of which `del` takes one for each of its keys, and an operation
-- on all shards under the lock of the store. It may panic: the store is then left as it is.
-- Two accesses to different shards may overlap. They change different shards, and the key count by
-- atomic additions and subtractions, so they stand here one after the other.
pub mod Panicked
pub mod Covered
use rustkv_lab.Prelude.{ℕ, Option, [], ◌∷◌, Bytes}
use rustkv_lab.Core.Time.{Clock}
use rustkv_lab.Core.Database
use rustkv_lab.Core.Sharded.{
  ShardedDatabase, info_snapshot, remove_expired, snapshot_entries, flushdb,
}
use rustkv_lab.Core.Sharded.Step
use rustkv_lab.Core.Sharded.Step.{run_shard}

pub data Access (hash : Bytes → ℕ) (s : ShardedDatabase) : ShardedDatabase → Type 0 where
  set_key :
      (c : Clock) (key value : Bytes) (duration : Option ℕ)
      → Access hash s (Step.set_key hash c key value duration s).1
  set_at_ms :
      (c : Clock) (key value : Bytes) (timestamp_ms : ℕ)
      → Access hash s (Step.set_at_ms hash c key value timestamp_ms s).1
  get : (c : Clock) (key : Bytes) → Access hash s (Step.get hash c key s).1
  exists : (c : Clock) (key : Bytes) → Access hash s (Step.exists hash c key s).1
  ttl : (c : Clock) (key : Bytes) → Access hash s (Step.ttl hash c key s).1
  expire :
      (c : Clock) (key : Bytes) (seconds : ℕ) → Access hash s (Step.expire hash c key seconds s).1
  expire_at_ms :
      (c : Clock) (key : Bytes) (timestamp_ms : ℕ)
      → Access hash s (Step.expire_at_ms hash c key timestamp_ms s).1
  -- One round of the loop of `del`.
  del_key :
      (c : Clock) (key : Bytes) → Access hash s (run_shard hash key (Database.del c (key ∷ [])) s).1
  flush : Access hash s (flushdb s).1
  info : (c : Clock) → Access hash s (info_snapshot c s).1
  sweep : (c : Clock) → Access hash s (remove_expired c s).1
  snapshot : (c : Clock) → Access hash s (snapshot_entries c s).1

-- Any number of accesses, whatever else is done between them.
pub data Accesses (hash : Bytes → ℕ) : ShardedDatabase → ShardedDatabase → Type 0 where
  nothing : (s : ShardedDatabase) → Accesses hash s s
  one_more :
      {s s' s'' : ShardedDatabase} → Access hash s s' → Accesses hash s' s'' → Accesses hash s s''
