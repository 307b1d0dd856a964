-- ===== src/Core/Sharded/Access/Covered.antt =====
-- Every access to the store, also one that panics, leaves it in order, and the key count no smaller
-- than the number of the entries.
use rustkv_lab.Prelude.{
  ℕ, ◌+◌, ◌-◌, ◌≤◌, ◌<◌, refl, sym, subst, [], ◌∷◌, arith, Bytes, length, get_or, inl, inr, All,
  replicate,
}
use rustkv_lab.Core.HashMap.Laws.{IsUnique}
use rustkv_lab.Core.Time.{Clock, Outcome, Outcome-cases, current_unix_ms}
use rustkv_lab.Core.Database
use rustkv_lab.Core.Database.{Database}
use rustkv_lab.Core.Database.Touches.{
  Touches-length, Leaves, set-Touches, set_at_ms-Touches, get-Touches, exists-Touches, ttl-Touches,
  expire-Touches, expire_at_ms-Touches, del-Touches,
}
use rustkv_lab.Core.Sharded.{
  ShardedDatabase, usize_limit, apply_len_change, remove_expired, info_snapshot, snapshot_entries,
  flushdb,
}
use rustkv_lab.Core.Sharded
use rustkv_lab.Core.Sharded.Step
use rustkv_lab.Core.Sharded.Step.{shard_for_key, run_shard, run_key, run_swept, swept}
use rustkv_lab.Core.Sharded.Valid.{
  IsValid, total, ArePlaced, total-set, after_change, shard-lt, shard-IsUnique, swept-Touches,
}
use rustkv_lab.Core.Sharded.Sweep.{
  sweep-booked, sweep-IsUnique, sweep-placed, length-sweep, flushdb_lem, flushdb-IsValid,
}
use rustkv_lab.Core.Sharded.Snapshot.{at_once, snapshot_loop-sweep}
use rustkv_lab.Core.Sharded.Access.{
  Access, set_key, set_at_ms, get, exists, ttl, expire, expire_at_ms, del_key, flush, info, sweep,
  snapshot,
}
use rustkv_lab.Core.Sharded.Access.Panicked.{
  Shrinks, set-Shrinks, set_at_ms-Shrinks, get-Shrinks, exists-Shrinks, ttl-Shrinks, expire-Shrinks,
  expire_at_ms-Shrinks, del-Shrinks, swept-Shrinks,
}

-- There is a shard, the keys of a shard are distinct and belong there, `key_count` counts no fewer
-- than all entries, and no more than `n`.
pub record IsCovered (hash : Bytes → ℕ) (n : ℕ) (s : ShardedDatabase) : Type 0 where
  pub some_shard : 0 < length s.shards
  pub unique : All IsUnique s.shards
  pub placed : ArePlaced hash (length s.shards) 0 s.shards
  pub covers : total s.shards ≤ s.key_count
  pub few : s.key_count ≤ n

-- The store with the key count that is exact.
abbrev exact : ShardedDatabase → ShardedDatabase
exact s = record s { key_count = total s.shards }

module _ (hash : Bytes → ℕ) (n : ℕ) (s : ShardedDatabase) (w : IsCovered hash n s)
    (fits : n + 1 < usize_limit) where
  exact-IsValid : IsValid hash (exact s)
  exact-IsValid = record {
    some_shard = w.some_shard;
    unique = w.unique;
    placed = w.placed;
    counted = refl;
  }

  run_shard-IsCovered {ℓ} :
      {R : Type ℓ} (key : Bytes) (method : Database → Outcome R × Database)
      → ((db : Database) → Leaves key db (method db))
      → ((db : Database) → Shrinks db (method db))
      → IsCovered hash (n + 1) (run_shard hash key method s).1
  unfolding run_shard shard_for_key apply_len_change
  run_shard-IsCovered key method leaves shrinks =
      let i = shard_for_key hash (exact s) key in
      let db = get_or s.shards i [] in
      let v = exact-IsValid in
      let changed =
        after_change hash (exact s) v key (method db).1 (leaves db)
          (omega (arith, w.covers, w.few)) in
      let sum = total-set s.shards i (method db).1 (shard-lt hash (exact s) v key) in
      let longer = Touches-length (leaves db) (shard-IsUnique hash (exact s) v key) in
      elim (Outcome-cases (method db).0) [
        | inl p ↦
            let shorter = shrinks db p in
            rw p (record {
              some_shard = changed.some_shard;
              unique = changed.unique;
              placed = changed.placed;
              covers = omega (arith, sum, shorter, w.covers);
              few = omega (arith, w.few);
            })
        | inr (a, p) ↦ rw p (record {
          some_shard = changed.some_shard;
          unique = changed.unique;
          placed = changed.placed;
          covers = ground (arith, sum, longer, w.covers, w.few, fits);
          few = ground (arith, sum, longer, w.covers, w.few, fits);
        })
      ]

  run_swept-IsCovered :
      (c : Clock) (key : Bytes) (method : Database.Method (Unit {0}))
      → ((db : Database) → Leaves key db (method db))
      → ((db : Database) → Shrinks db (method db))
      → IsCovered hash (n + 1) (run_swept hash c key method s).1
  unfolding run_swept
  run_swept-IsCovered c key method leaves shrinks =
      run_shard-IsCovered key (swept c method) (swept-Touches c key method leaves)
        (λ db. swept-Shrinks c method db shrinks)

  -- The sweep of all shards.
  sweep-IsCovered :
      (c : Clock)
      → IsCovered hash (n + 1) (record {
        shards = (Sharded.sweep c s.shards s.key_count 0).0;
        key_count = (Sharded.sweep c s.shards s.key_count 0).1;
      })
  sweep-IsCovered c =
      let booked =
        sweep-booked hash c s.shards s.key_count 0 (s.key_count - total s.shards)
          (omega (arith, w.covers)) (omega (arith, w.few)) in
      let size = length-sweep hash c s.shards s.key_count 0 in
      record {
        some_shard = omega (arith, size, w.some_shard);
        unique = sweep-IsUnique hash c s.shards s.key_count 0 w.unique;
        placed =
            rw size
              (sweep-placed hash c (length s.shards) 0 s.shards s.key_count 0 w.unique w.placed);
        covers = omega (arith, booked.0);
        few = omega (arith, booked.0, booked.1, w.covers, w.few);
      }

  flushdb-IsCovered : IsCovered hash (n + 1) (flushdb s).1
  flushdb-IsCovered =
      let v : IsValid hash (record { shards = replicate (length s.shards) []; key_count = 0 }) =
        subst (λ r. IsValid hash r.1) (flushdb_lem (exact s))
          (flushdb-IsValid hash (exact s) exact-IsValid) in
      rw flushdb_lem (record {
        some_shard = v.some_shard;
        unique = v.unique;
        placed = v.placed;
        covers = omega (arith, v.counted);
        few = omega arith;
      })

  -- An access, whether it returns or panics.
  pub Access-IsCovered : {s' : ShardedDatabase} → Access hash s s' → IsCovered hash (n + 1) s'
  unfolding Step.set_key Step.set_at_ms Step.get Step.exists Step.ttl Step.expire Step.expire_at_ms
      run_key info_snapshot remove_expired snapshot_entries
  Access-IsCovered (set_key c key value d) =
      run_swept-IsCovered c key (Database.set c key value d) (λ db. set-Touches c key db value d)
        (λ db. set-Shrinks c key db value d)
  Access-IsCovered (set_at_ms c key value ts) =
      run_swept-IsCovered c key (Database.set_at_ms c key value ts)
        (λ db. set_at_ms-Touches c key db value ts) (λ db. set_at_ms-Shrinks c key db value ts)
  Access-IsCovered (get c key) =
      run_shard-IsCovered key (Database.get c key) (get-Touches c key) (get-Shrinks c key)
  Access-IsCovered (exists c key) =
      run_shard-IsCovered key (Database.exists c key) (exists-Touches c key) (exists-Shrinks c key)
  Access-IsCovered (ttl c key) =
      run_shard-IsCovered key (Database.ttl c key) (ttl-Touches c key) (ttl-Shrinks c key)
  Access-IsCovered (expire c key secs) =
      run_shard-IsCovered key (Database.expire c key secs) (λ db. expire-Touches c key db secs)
        (λ db. expire-Shrinks c key db secs)
  Access-IsCovered (expire_at_ms c key ts) =
      run_shard-IsCovered key (Database.expire_at_ms c key ts)
        (λ db. expire_at_ms-Touches c key db ts) (λ db. expire_at_ms-Shrinks c key db ts)
  Access-IsCovered (del_key c key) =
      run_shard-IsCovered key (Database.del c (key ∷ [])) (del-Touches c key) (del-Shrinks c key)
  Access-IsCovered flush = flushdb-IsCovered
  Access-IsCovered (info c) = sweep-IsCovered c
  Access-IsCovered (sweep c) = sweep-IsCovered c
  Access-IsCovered (snapshot c) =
      subst
        (λ (shards, key_count, m).
          IsCovered hash (n + 1) (record { shards = shards; key_count = key_count }))
        (sym (snapshot_loop-sweep c (current_unix_ms c.unix) s.shards s.key_count 0 []))
        (sweep-IsCovered (at_once c))
