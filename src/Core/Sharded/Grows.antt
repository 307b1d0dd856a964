-- ===== src/Core/Sharded/Grows.antt =====
-- The store grows by at most one entry with each operation, also with one that panics.
use rustkv_lab.Prelude.{ℕ, ◌+◌, ◌≤◌, ◌<◌, ◌≡◌, List, [], ◌∷◌, arith, Bytes, length, get_or}
use rustkv_lab.Core.HashMap.Laws.{IsUnique}
use rustkv_lab.Core.HashMap.Size.{length-remove}
use rustkv_lab.Core.Time.{Clock, Outcome, returned}
use rustkv_lab.Core.Database
use rustkv_lab.Core.Database.{Database, del_one, remove_if_expired}
use rustkv_lab.Core.Database.Touches.{
  Leaves, set-Touches, set_at_ms-Touches, get-Touches, exists-Touches, ttl-Touches, expire-Touches,
  expire_at_ms-Touches, del-Touches,
}
use rustkv_lab.Core.Sharded.{ShardedDatabase, usize_limit, flushdb}
use rustkv_lab.Core.Sharded.Step
use rustkv_lab.Core.Sharded.Step.{shard_for_key, run_shard, run_key, run_swept, swept, del_loop}
use rustkv_lab.Core.Sharded.Valid.{
  IsValid, total, total-set, total-run_shard, shard-lt, shard-IsUnique, after_change, swept-Touches,
}
use rustkv_lab.Core.Sharded.Sweep.{flushdb_lem, total-empty}

-- What an operation leaves: at most `n` entries, and a valid store unless it panics.
pub record Held {ℓ} (hash : Bytes → ℕ) (n : ℕ) {X : Type ℓ} (r : Outcome X × ShardedDatabase)
    : Type ℓ where
  pub few : total r.1.shards ≤ n
  pub valid : (x : X) → r.0 ≡ returned x → IsValid hash r.1

module _ (hash : Bytes → ℕ) (c : Clock) (key : Bytes) (s : ShardedDatabase)
    (v : IsValid hash s) where
  total-run_key {ℓ} :
      {A : Type ℓ} (method : Database.Method A)
      → ((db : Database) → Leaves key db (method db))
      → total (run_key hash key method s).1.shards ≤ total s.shards + 1
  unfolding run_key
  total-run_key method leaves = total-run_shard hash key method s v leaves

  total-run_swept :
      (method : Database.Method (Unit {0}))
      → ((db : Database) → Leaves key db (method db))
      → total (run_swept hash c key method s).1.shards ≤ total s.shards + 1
  unfolding run_swept
  total-run_swept method leaves =
      total-run_shard hash key (swept c method) s v (swept-Touches c key method leaves)

  pub total-get : total (Step.get hash c key s).1.shards ≤ total s.shards + 1
  unfolding Step.get
  total-get = total-run_key (Database.get c key) (get-Touches c key)

  pub total-exists : total (Step.exists hash c key s).1.shards ≤ total s.shards + 1
  unfolding Step.exists
  total-exists = total-run_key (Database.exists c key) (exists-Touches c key)

  pub total-ttl : total (Step.ttl hash c key s).1.shards ≤ total s.shards + 1
  unfolding Step.ttl
  total-ttl = total-run_key (Database.ttl c key) (ttl-Touches c key)

  pub total-set_key :
      (value : Bytes) (expire : _)
      → total (Step.set_key hash c key value expire s).1.shards ≤ total s.shards + 1
  unfolding Step.set_key
  total-set_key value expire =
      total-run_swept (Database.set c key value expire) (λ db. set-Touches c key db value expire)

  pub total-set_at_ms :
      (value : Bytes) (ts : ℕ)
      → total (Step.set_at_ms hash c key value ts s).1.shards ≤ total s.shards + 1
  unfolding Step.set_at_ms
  total-set_at_ms value ts =
      total-run_swept (Database.set_at_ms c key value ts)
        (λ db. set_at_ms-Touches c key db value ts)

  pub total-expire :
      (secs : ℕ) → total (Step.expire hash c key secs s).1.shards ≤ total s.shards + 1
  unfolding Step.expire
  total-expire secs =
      total-run_key (Database.expire c key secs) (λ db. expire-Touches c key db secs)

  pub total-expire_at_ms :
      (ts : ℕ) → total (Step.expire_at_ms hash c key ts s).1.shards ≤ total s.shards + 1
  unfolding Step.expire_at_ms
  total-expire_at_ms ts =
      total-run_key (Database.expire_at_ms c key ts) (λ db. expire_at_ms-Touches c key db ts)

-- `del` erases only.
length-del_one :
    (c : Clock) (key : Bytes) (db : Database)
    → IsUnique db
    → length (del_one c key db).1 ≤ length db
unfolding del_one remove_if_expired
length-del_one c key db u = ground (arith, length-remove key db u)

module _ (hash : Bytes → ℕ) (c : Clock) where
  pub del_loop-Held :
      (keys : List Bytes) (removed expired : ℕ) (s : ShardedDatabase)
      → IsValid hash s
      → total s.shards + 1 < usize_limit
      → Held hash (total s.shards) (del_loop hash c keys removed expired s)
  unfolding del_loop Database.del Database.del_loop
  del_loop-Held [] removed expired s v fits = record { few = omega arith; valid = λ x e. v }
  del_loop-Held (key ∷ keys) removed expired s v fits =
      let db = get_or s.shards (shard_for_key hash s key) [] in
      let s' = (run_shard hash key (Database.del c (key ∷ [])) s).1 in
      let fewer : total s'.shards ≤ total s.shards = omega (
        arith,
        total-set s.shards (shard_for_key hash s key) (del_one c key db).1 (shard-lt hash s v key),
        length-del_one c key db (shard-IsUnique hash s v key),
      ) in
      let rest =
        del_loop-Held keys _ _ s' (after_change hash s v key _ (del-Touches c key db) fits)
          (omega (arith, fewer)) in
      record { few = omega (arith, fewer, rest.few); valid = rest.valid }

  pub del-Held :
      (keys : List Bytes) (s : ShardedDatabase)
      → IsValid hash s
      → total s.shards + 1 < usize_limit
      → Held hash (total s.shards + 1) (Step.del hash c keys s)
  unfolding Step.del
  del-Held keys s v fits =
      let h = del_loop-Held keys 0 0 s v fits in
      record { few = omega (arith, h.few); valid = h.valid }

pub total-flushdb : (s : ShardedDatabase) → total (flushdb s).1.shards ≡ 0
total-flushdb s = rw flushdb_lem (total-empty (length s.shards))
