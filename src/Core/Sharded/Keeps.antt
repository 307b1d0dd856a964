-- ===== src/Core/Sharded/Keeps.antt =====
-- Every operation that returns keeps the invariant. An operation that panics does not book what it
-- removed: `key_count` is then too large.
use rustkv_lab.Prelude.{
  ℕ, ◌+◌, ◌<◌, ◌≡◌, Bool, Option, List, [], ◌∷◌, arith, Bytes, length, get_or, inl, inr,
}
use rustkv_lab.Core.Time.{Clock, returned, Outcome-cases}
use rustkv_lab.Core.Database
use rustkv_lab.Core.Database.{Database, is_live}
use rustkv_lab.Core.Database.Touches.{
  Touches-length, Leaves, set-Touches, set_at_ms-Touches, get-Touches, exists-Touches, ttl-Touches,
  expire-Touches, expire_at_ms-Touches, del-Touches,
}
use rustkv_lab.Core.Sharded.{ShardedDatabase, DbOutcome, usize_limit}
use rustkv_lab.Core.Sharded.Step.{
  shard_for_key, run_shard, run_key, run_swept, swept, set_key, set_at_ms, get, exists, ttl, expire,
  expire_at_ms, del_loop, del,
}
use rustkv_lab.Core.Sharded.Valid.{
  IsValid, total, run_shard-IsValid, total-set, shard-lt, shard-IsUnique, after_change,
  swept-Touches,
}

module _ (hash : Bytes → ℕ) (s : ShardedDatabase) (v : IsValid hash s)
    (fits : total s.shards + 1 < usize_limit) (c : Clock) (key : Bytes) where
  run_key-IsValid {ℓ} :
      {A : Type ℓ} (method : Database.Method A)
      → ((db : Database) → Leaves key db (method db))
      → (o : DbOutcome A) → (run_key hash key method s).0 ≡ returned o
      → IsValid hash (run_key hash key method s).1
  unfolding run_key
  run_key-IsValid method leaves o e = elim (Outcome-cases (run_shard hash key method s).0) [
    | inl p ↦ absurd (ground (arith, p))
    | inr (b, p) ↦ run_shard-IsValid hash s v key method leaves fits b p
  ]

  run_swept-IsValid :
      (method : Database.Method (Unit {0}))
      → ((db : Database) → Leaves key db (method db))
      → (o : DbOutcome (Unit {0})) → (run_swept hash c key method s).0 ≡ returned o
      → IsValid hash (run_swept hash c key method s).1
  unfolding run_swept
  run_swept-IsValid method leaves o e =
      elim (Outcome-cases (run_shard hash key (swept c method) s).0) [
        | inl p ↦ absurd (ground (arith, p))
        | inr (b, p) ↦
            run_shard-IsValid hash s v key (swept c method) (swept-Touches c key method leaves) fits
              b p
      ]

  pub set-IsValid :
      (value : Bytes) (expire : Option ℕ) (o : DbOutcome (Unit {0}))
      → (set_key hash c key value expire s).0 ≡ returned o
      → IsValid hash (set_key hash c key value expire s).1
  unfolding set_key
  set-IsValid value expire =
      run_swept-IsValid (Database.set c key value expire) (λ db. set-Touches c key db value expire)

  pub set_at_ms-IsValid :
      (value : Bytes) (ts : ℕ) (o : DbOutcome (Unit {0}))
      → (set_at_ms hash c key value ts s).0 ≡ returned o
      → IsValid hash (set_at_ms hash c key value ts s).1
  unfolding set_at_ms
  set_at_ms-IsValid value ts =
      run_swept-IsValid (Database.set_at_ms c key value ts)
        (λ db. set_at_ms-Touches c key db value ts)

  pub expire-IsValid :
      (secs : ℕ) (o : DbOutcome Bool)
      → (expire hash c key secs s).0 ≡ returned o
      → IsValid hash (expire hash c key secs s).1
  unfolding expire
  expire-IsValid secs =
      run_key-IsValid (Database.expire c key secs) (λ db. expire-Touches c key db secs)

  pub expire_at_ms-IsValid :
      (ts : ℕ) (o : DbOutcome Bool)
      → (expire_at_ms hash c key ts s).0 ≡ returned o
      → IsValid hash (expire_at_ms hash c key ts s).1
  unfolding expire_at_ms
  expire_at_ms-IsValid ts =
      run_key-IsValid (Database.expire_at_ms c key ts) (λ db. expire_at_ms-Touches c key db ts)

  pub get-IsValid :
      (o : DbOutcome (Option Bytes))
      → (get hash c key s).0 ≡ returned o
      → IsValid hash (get hash c key s).1
  unfolding get
  get-IsValid = run_key-IsValid (Database.get c key) (get-Touches c key)

  pub exists-IsValid :
      (o : DbOutcome Bool)
      → (exists hash c key s).0 ≡ returned o
      → IsValid hash (exists hash c key s).1
  unfolding exists
  exists-IsValid = run_key-IsValid (Database.exists c key) (exists-Touches c key)

  pub ttl-IsValid :
      (o : DbOutcome _) → (ttl hash c key s).0 ≡ returned o → IsValid hash (ttl hash c key s).1
  unfolding ttl
  ttl-IsValid = run_key-IsValid (Database.ttl c key) (ttl-Touches c key)

module _ (hash : Bytes → ℕ) (c : Clock) where
  -- `del` never panics.
  del_loop-IsValid :
      (keys : List Bytes) (removed expired : ℕ) (s : ShardedDatabase)
      → IsValid hash s
      → total s.shards + length keys < usize_limit
      → IsValid hash (del_loop hash c keys removed expired s).1
  unfolding del_loop
  del_loop-IsValid [] removed expired s v fits = v
  del_loop-IsValid (key ∷ keys) removed expired s v fits =
      let touches = del-Touches c key (get_or s.shards (shard_for_key hash s key) []) in
      del_loop-IsValid keys _ _ _ (after_change hash s v key _ touches (omega arith)) (
        omega (
          arith,
          total-set s.shards (shard_for_key hash s key) _ (shard-lt hash s v key),
          Touches-length touches (shard-IsUnique hash s v key),
        ))

  pub del-IsValid :
      (keys : List Bytes) (s : ShardedDatabase)
      → IsValid hash s
      → total s.shards + length keys < usize_limit
      → IsValid hash (del hash c keys s).1
  unfolding del
  del-IsValid keys s = del_loop-IsValid keys 0 0 s
