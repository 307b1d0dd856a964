-- ===== src/Core/Sharded.antt =====
-- `ShardedDatabase` of `db.rs`. An operation is a function from state to state; one on a single key
-- holds the lock of its shard from its first read to its last write, one on all shards the lock of
-- the store, and `del` takes a lock for each key: `Access` has what is done under one lock. `hash` stands for the standard
-- library's `DefaultHasher`, whose algorithm is not specified.
pub mod Step
pub mod Valid
pub mod Keeps
pub mod Sweep
pub mod View
pub mod Reads
pub mod Writes
pub mod Deletes
pub mod Snapshot
pub mod Timestamps
pub mod Grows
pub mod Panics
pub mod Access
pub mod Entries
use rustkv_lab.Prelude.{
  ℕ, zero, suc, ◌+◌, ◌-◌, ◌*◌, ◌/◌, ◌%◌, ◌^◌, max, Bool, true, false, not, Option, none, some, List,
  [], ◌∷◌, ◌++◌, map, Bytes, ltb, leb, ◌==◌, if◌then◌else◌, length, get_or, set, replicate, Result,
  ok, err,
}
use rustkv_lab.Prelude.Int.{ℤ}
use rustkv_lab.Core.HashMap.{retain}
use rustkv_lab.Core.Sort.{sort, sort_by}
use rustkv_lab.Core.Error.{KvError, KvResult}
use rustkv_lab.Core.Time.{Clock, Outcome, returned, panicked, current_unix_ms, unix_ms_after}
use rustkv_lab.Core.Entry.{Entry}
use rustkv_lab.Core.Database
use rustkv_lab.Core.Database.{Database}

abbrev pub usize_limit : ℕ
usize_limit = 2 ^ 64

abbrev pub default_shard_count : ℕ
default_shard_count = 16

pub record DbOutcome {ℓ} (A : Type ℓ) : Type ℓ where
  pub result : KvResult A
  pub key_count : ℕ
  pub expired_count : ℕ

pub record DbInfoSnapshot : Type 0 where
  pub key_count : ℕ
  pub memory_estimate_bytes : ℕ
  pub expired_count : ℕ

pub record DbSnapshotEntry : Type 0 where
  pub key : Bytes
  pub value : Bytes
  pub expire_at_ms : Option ℕ

pub record DbSnapshot : Type 0 where
  pub entries : List DbSnapshotEntry
  pub key_count : ℕ
  pub expired_count : ℕ

pub record ShardedDatabase : Type 0 where
  pub shards : List Database
  pub key_count : ℕ

-- `ShardedDatabase::new`
unfoldable pub new : ℕ → ShardedDatabase
unfolding Database.new
new shard_count = record { shards = replicate (max shard_count 1) Database.new; key_count = 0 }

unfoldable pub shard_count : ShardedDatabase → ℕ
shard_count s = length s.shards

unfoldable pub is_empty : ShardedDatabase → Bool
is_empty s = s.key_count == 0

-- `fetch_add` wraps around, `saturating_sub` stops at zero.
unfoldable pub apply_len_change : ℕ → ℕ → ℕ → ℕ
apply_len_change before after key_count =
    if leb before after
    then (key_count + (after - before)) % usize_limit
    else key_count - (before - after)

-- The loop over the shards that `info_snapshot` and `remove_expired` share: the shards, the key
-- count and the sum of what was removed.
unfoldable pub sweep : Clock → List Database → ℕ → ℕ → List Database × ℕ × ℕ
unfolding apply_len_change Database.remove_expired
sweep c [] key_count expired_count = ([], key_count, expired_count)
sweep c (db ∷ shards) key_count expired_count =
    let (removed, db') = Database.remove_expired c db in
    let (shards', key_count', expired_count') =
      sweep c shards (apply_len_change (length db) (length db') key_count)
        (expired_count + removed) in
    (db' ∷ shards', key_count', expired_count')

unfoldable pub memory_of : List Database → ℕ
unfolding Database.memory_estimate_bytes
memory_of [] = 0
memory_of (db ∷ shards) = Database.memory_estimate_bytes db + memory_of shards

unfoldable pub info_snapshot : Clock → ShardedDatabase → DbInfoSnapshot × ShardedDatabase
unfolding sweep memory_of
info_snapshot c s =
    let (shards, key_count, expired_count) = sweep c s.shards s.key_count 0 in
    (
      record {
        key_count = key_count;
        memory_estimate_bytes = memory_of shards;
        expired_count = expired_count;
      },
      record { shards = shards; key_count = key_count },
    )

unfoldable pub remove_expired : Clock → ShardedDatabase → (ℕ × ℕ) × ShardedDatabase
unfolding sweep
remove_expired c s =
    let (shards, key_count, expired_count) = sweep c s.shards s.key_count 0 in
    ((expired_count, key_count), record { shards = shards; key_count = key_count })

-- `is_none_or(|expire_at| instant_now < expire_at)`
abbrev pub before_deadline : ℕ → Bytes → Entry → Bool
before_deadline now key entry = elim entry.expire_at [ none ↦ true | some t ↦ ltb now t ]

-- `now` and `unix_ms` are read once, before the loop.
unfoldable pub snapshot_entry : ℕ → ℕ → Bytes × Entry → DbSnapshotEntry
unfolding unix_ms_after
snapshot_entry now unix_ms (key, entry) = record {
  key = key;
  value = entry.value;
  expire_at_ms = elim entry.expire_at [
    | none ↦ none
    | some t ↦ some (unix_ms_after unix_ms (t - now))
  ];
}

unfoldable pub snapshot_loop :
    ℕ
    → ℕ
    → List Database
    → ℕ
    → ℕ
    → List DbSnapshotEntry
    → List Database × ℕ × ℕ × List DbSnapshotEntry
unfolding snapshot_entry apply_len_change
snapshot_loop now unix_ms [] key_count expired_count entries =
    ([], key_count, expired_count, entries)
snapshot_loop now unix_ms (db ∷ shards) key_count expired_count entries =
    let db' = retain (before_deadline now) db in
    let (shards', key_count', expired_count', entries') =
      snapshot_loop now unix_ms shards (apply_len_change (length db) (length db') key_count)
        (expired_count + (length db - length db'))
        (entries ++ map (snapshot_entry now unix_ms) db') in
    (db' ∷ shards', key_count', expired_count', entries')

unfoldable pub snapshot_entries : Clock → ShardedDatabase → DbSnapshot × ShardedDatabase
unfolding snapshot_loop current_unix_ms sort_by
snapshot_entries c s =
    let (shards, key_count, expired_count, entries) =
      snapshot_loop c.instant (current_unix_ms c.unix) s.shards s.key_count 0 [] in
    (
      record {
        entries = sort_by (λ e. e.key) entries;
        key_count = key_count;
        expired_count = expired_count;
      },
      record { shards = shards; key_count = key_count },
    )

unfoldable pub keys_loop : Clock → List Database → List Bytes → KvResult (List Bytes)
unfolding Database.keys
keys_loop c [] keys = ok keys
keys_loop c (db ∷ shards) keys = elim (Database.keys c db) [
  | err e ↦ err e
  | ok more ↦ keys_loop c shards (keys ++ more)
]

abbrev pub sorted_keys : KvResult (List Bytes) → KvResult (List Bytes)
sorted_keys (ok ks) = ok (sort ks)
sorted_keys (err e) = err e

unfoldable pub keys : Clock → ShardedDatabase → KvResult (List Bytes)
unfolding keys_loop sort
keys c s = sorted_keys (keys_loop c s.shards [])

-- The shards after the loop of `flushdb`, whose calls all succeed.
unfoldable pub flush_loop : List Database → KvResult (Unit {0}) × List Database
unfolding Database.flushdb
flush_loop [] = (ok tt, [])
flush_loop (db ∷ shards) =
    let (r, db') = Database.flushdb db in
    let (r', shards') = flush_loop shards in
    elim r [ err e ↦ (err e, db' ∷ shards) | ok u ↦ (r', db' ∷ shards') ]

abbrev pub flushed : KvResult (Unit {0}) → ShardedDatabase → DbOutcome (Unit {0}) × ShardedDatabase
flushed (err e) s = (record { result = err e; key_count = s.key_count; expired_count = 0 }, s)
flushed (ok u) s =
    (record { result = ok u; key_count = 0; expired_count = 0 }, record s { key_count = 0 })

unfoldable pub flushdb : ShardedDatabase → DbOutcome (Unit {0}) × ShardedDatabase
unfolding flush_loop
flushdb s = let (r, shards) = flush_loop s.shards in flushed r (record s { shards = shards })
