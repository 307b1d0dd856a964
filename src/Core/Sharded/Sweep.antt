-- ===== src/Core/Sharded/Sweep.antt =====
-- The loops over all shards: the sweep of `info_snapshot` and `remove_expired`, and `flushdb`.
use rustkv_lab.Prelude.{
  ℕ, zero, suc, ◌+◌, ◌-◌, ◌<◌, max, ◌≡◌, refl, sym, ap, List, [], ◌∷◌, arith, Bytes, replicate,
  length-replicate, length, All, ok,
}
use rustkv_lab.Core.HashMap.{lookup, retain}
use rustkv_lab.Core.HashMap.Size.{length-retain}
use rustkv_lab.Core.HashMap.Laws.{IsUnique, retain-IsUnique, lookup-retain}
use rustkv_lab.Core.Time.{Clock}
use rustkv_lab.Core.Database.{Database, is_live}
use rustkv_lab.Core.Sharded.{
  ShardedDatabase, DbOutcome, usize_limit, apply_len_change, sweep, remove_expired, info_snapshot,
  flush_loop, flushdb,
}
use rustkv_lab.Core.Sharded
use rustkv_lab.Core.Sharded.Valid.{IsValid, total, ArePlaced}

module _ (hash : Bytes → ℕ) (c : Clock) where
  -- The loops over all shards: what they remove they book, and they count it.
  pub sweep-booked :
      (shards : List Database) (n expired r : ℕ)
      → n ≡ total shards + r
      → n < usize_limit
      → ((sweep c shards n expired).1 ≡ total (sweep c shards n expired).0 + r)
        × ((sweep c shards n expired).2 + total (sweep c shards n expired).0
            ≡ expired + total shards)
  unfolding sweep
  sweep-booked [] n expired r e lt = (omega arith, omega arith)
  sweep-booked (db ∷ shards) n expired r e lt =
      let shorter = length-retain (is_live c) db in
      let rest =
        sweep-booked shards (apply_len_change (length db) (length (retain (is_live c) db)) n)
          (expired + (length db - length (retain (is_live c) db)))
          (r + length (retain (is_live c) db)) (ground (arith, shorter))
          (ground (arith, shorter)) in
      (omega (arith, rest.0), omega (arith, rest.1, shorter))

  pub sweep-IsUnique :
      (shards : List Database) (n expired : ℕ)
      → All IsUnique shards
      → All IsUnique (sweep c shards n expired).0
  unfolding sweep
  sweep-IsUnique [] n expired u = tt
  sweep-IsUnique (db ∷ shards) n expired u =
      (retain-IsUnique (is_live c) db u.0, sweep-IsUnique shards _ _ u.1)

  pub sweep-placed :
      (m i : ℕ) (shards : List Database) (n expired : ℕ)
      → All IsUnique shards
      → ArePlaced hash m i shards
      → ArePlaced hash m i (sweep c shards n expired).0
  unfolding sweep
  sweep-placed m i [] n expired u h = tt
  sweep-placed m i (db ∷ shards) n expired u h = (
    λ k ne. ground (arith, lookup-retain (is_live c) k db u.0, h.0 k ne),
    sweep-placed m (suc i) shards _ _ u.1 h.1,
  )

  pub length-sweep :
      (shards : List Database) (n expired : ℕ) → length (sweep c shards n expired).0 ≡ length shards
  unfolding sweep
  length-sweep [] n expired = refl
  length-sweep (db ∷ shards) n expired = ap suc (length-sweep shards _ _)

  -- The background sweep keeps the invariant, and the number that it reports is exact.
  pub remove_expired-IsValid :
      (s : ShardedDatabase)
      → IsValid hash s
      → total s.shards < usize_limit
      → IsValid hash (remove_expired c s).1
        × ((remove_expired c s).0.0 + (remove_expired c s).0.1 ≡ s.key_count)
  unfolding remove_expired
  remove_expired-IsValid s v fits =
      let booked =
        sweep-booked s.shards s.key_count 0 0 (omega (arith, v.counted))
          (omega (arith, v.counted)) in
      let size = length-sweep s.shards s.key_count 0 in
      (
        record {
          some_shard = omega (arith, size, v.some_shard);
          unique = sweep-IsUnique s.shards s.key_count 0 v.unique;
          placed =
              rw size (sweep-placed (length s.shards) 0 s.shards s.key_count 0 v.unique v.placed);
          counted = omega (arith, booked.0);
        },
        omega (arith, booked.0, booked.1, v.counted),
      )

  -- INFO's snapshot keeps the invariant; the key count that it reports is the number of entries
  -- left, and with the number of those it removed, the key count before.
  pub info_snapshot-IsValid :
      (s : ShardedDatabase)
      → IsValid hash s
      → total s.shards < usize_limit
      → IsValid hash (info_snapshot c s).1
        × ((info_snapshot c s).0.key_count ≡ total (info_snapshot c s).1.shards)
        × ((info_snapshot c s).0.key_count + (info_snapshot c s).0.expired_count ≡ s.key_count)
  unfolding info_snapshot remove_expired
  info_snapshot-IsValid s v fits =
      let (v', exact) = remove_expired-IsValid s v fits in (v', v'.counted, omega (arith, exact))

flush_loop-replicate :
    (shards : List Database) → (flush_loop shards).1 ≡ replicate (length shards) []
unfolding flush_loop
flush_loop-replicate [] = refl
flush_loop-replicate (db ∷ shards) = ap (λ l. [] ∷ l) (flush_loop-replicate shards)

flush_loop-ok : (shards : List Database) → (flush_loop shards).0 ≡ ok tt
unfolding flush_loop
flush_loop-ok [] = refl
flush_loop-ok (db ∷ shards) = flush_loop-ok shards

-- `flushdb` empties every shard, keeps their number and succeeds.
pub flushdb_lem :
    (s : ShardedDatabase)
    → flushdb s ≡ (
      record { result = ok tt; key_count = 0; expired_count = 0 },
      record { shards = replicate (length s.shards) []; key_count = 0 },
    )
unfolding flushdb
flushdb_lem s = rw (flush_loop-ok s.shards, flush_loop-replicate s.shards)

pub total-empty : (n : ℕ) → total (replicate n []) ≡ 0
total-empty zero = refl
total-empty (suc n) = omega (arith, total-empty n)

module _ (hash : Bytes → ℕ) where
  empty-IsUnique : (n : ℕ) → All IsUnique (replicate {A = Database} n [])
  empty-IsUnique zero = tt
  empty-IsUnique (suc n) = (tt, empty-IsUnique n)

  empty-placed : (m i n : ℕ) → ArePlaced hash m i (replicate n [])
  empty-placed m i zero = tt
  empty-placed m i (suc n) = (λ k ne. unfold lookup in refl, empty-placed m (suc i) n)

  empty-IsValid : (n : ℕ) → 0 < n → IsValid hash (record { shards = replicate n []; key_count = 0 })
  empty-IsValid n h = record {
    some_shard = omega (arith, length-replicate {A = Database} n []);
    unique = empty-IsUnique n;
    placed = empty-placed _ 0 n;
    counted = sym (total-empty n);
  }

  -- A new store satisfies the invariant, whatever number of shards is asked for.
  pub new-IsValid : (n : ℕ) → IsValid hash (Sharded.new n)
  unfolding Sharded.new
  new-IsValid n = empty-IsValid (max n 1) (omega arith)

  pub flushdb-IsValid : (s : ShardedDatabase) → IsValid hash s → IsValid hash (flushdb s).1
  flushdb-IsValid s v = rw flushdb_lem (empty-IsValid (length s.shards) v.some_shard)
