-- ===== src/Core/Sharded/Panics.antt =====
-- A SET that panics does not book what its sweep removed.
use rustkv_lab.Prelude.{ℕ, ◌+◌, ◌≡◌, refl, Option, [], arith, Bytes, get_or}
use rustkv_lab.Core.HashMap.{retain}
use rustkv_lab.Core.HashMap.Size.{length-retain}
use rustkv_lab.Core.Time.{Clock, panicked}
use rustkv_lab.Core.Entry
use rustkv_lab.Core.Database
use rustkv_lab.Core.Database.{is_live}
use rustkv_lab.Core.Sharded.{ShardedDatabase}
use rustkv_lab.Core.Sharded.Step.{shard_for_key, run_shard, run_swept, swept, set_key}
use rustkv_lab.Core.Sharded.Valid.{IsValid, total, total-set, shard-lt}

module _ (hash : Bytes → ℕ) (c : Clock) (key value : Bytes) (expire : Option ℕ) where
  -- A `set` on a valid store whose deadline is too far for the clock panics after its shard was
  -- swept: the key count stays as it was, and counts the entries that the sweep removed.
  pub set_key_panics :
      (s : ShardedDatabase)
      → IsValid hash s
      → Entry.new c.instant value expire ≡ panicked
      → ((set_key hash c key value expire s).0 ≡ panicked)
        × ((set_key hash c key value expire s).1.key_count ≡ s.key_count)
        × (total (set_key hash c key value expire s).1.shards
              + (Database.remove_expired c (get_or s.shards (shard_for_key hash s key) [])).0
            ≡ s.key_count)
  unfolding set_key run_swept run_shard swept Database.set Database.remove_expired
  set_key_panics s v e =
      let i = shard_for_key hash s key in
      let db = get_or s.shards i [] in
      rw e (
        refl,
        refl,
        omega (
          arith,
          total-set s.shards i (retain (is_live c) db) (shard-lt hash s v key),
          length-retain (is_live c) db,
          v.counted,
        ),
      )
