-- ===== src/Core/Sharded/View.antt =====
-- What is visible of the store at a time: under each key the entry that has not expired.
use rustkv_lab.Prelude.{
  ℕ, ◌≡◌, ◌≢◌, ap, false, Option, [], arith, Bytes, bytes_eq, bytes_eq_iff, if◌then◌else◌, get_or,
  set, length-set, get_or-set_self, get_or-set_ne, inl, inr, Bool-cases, ==_iff, ◌==◌,
}
use rustkv_lab.Core.HashMap.{lookup}
use rustkv_lab.Core.Time.{Outcome}
use rustkv_lab.Core.Entry.{Entry}
use rustkv_lab.Core.Database.{Database}
use rustkv_lab.Core.Database.View.{live}
use rustkv_lab.Core.Sharded.{ShardedDatabase}
use rustkv_lab.Core.Sharded.Step.{shard_for_key, run_shard}
use rustkv_lab.Core.Sharded.Valid.{IsValid, shard-lt, shards-run_shard}

ne_of_test : {a b : ℕ} → (a == b) ≡ false → a ≢ b
ne_of_test {a} {b} e h = ground arith

module _ (hash : Bytes → ℕ) where
  -- The entry under a key, expired or not.
  unfoldable pub find : ShardedDatabase → Bytes → Option Entry
  find s k = lookup k (get_or s.shards (shard_for_key hash s k) [])

  unfoldable pub visible : ℕ → ShardedDatabase → Bytes → Option Entry
  unfolding find
  visible now s k = live now (find s k)

  find-run_shard {ℓ} :
      {R : Type ℓ} (key : Bytes) (method : Database → Outcome R × Database) (s : ShardedDatabase)
      (j : Bytes)
      → find (run_shard hash key method s).1 j
        ≡ lookup j (
            get_or
              (set s.shards
                (shard_for_key hash s key)
                (method (get_or s.shards (shard_for_key hash s key) [])).1)
              (shard_for_key hash s j)
              [])
  unfolding find shard_for_key
  find-run_shard key method s j = rw (shards-run_shard hash key method s, shard_for_key, length-set)

  other_shard :
      (key : Bytes) (s : ShardedDatabase) (j : Bytes)
      → (shard_for_key hash s key == shard_for_key hash s j) ≡ false
      → bytes_eq key j ≡ false
  other_shard key s j e = elim (Bool-cases (bytes_eq key j)) [
    | inl q ↦ absurd (ne_of_test e (ap (shard_for_key hash s) ((bytes_eq_iff key j).0 q)))
    | inr q ↦ q
  ]

  -- What a method does to its shard, the operation does to the store.
  pub visible-run_shard {ℓ} :
      {R : Type ℓ} (key : Bytes) (method : Database → Outcome R × Database) (s : ShardedDatabase)
      (later : ℕ) (j : Bytes) (y : Option Entry)
      → IsValid hash s
      → live later (lookup j (method (get_or s.shards (shard_for_key hash s key) [])).1) ≡ (
          if bytes_eq key j
          then y
          else live later (lookup j (get_or s.shards (shard_for_key hash s key) [])))
      → visible later (run_shard hash key method s).1 j
        ≡ (if bytes_eq key j then y else visible later s j)
  unfolding visible
  visible-run_shard key method s later j y v h =
      let i = shard_for_key hash s key in
      let i' = shard_for_key hash s j in
      let db' = (method (get_or s.shards i [])).1 in
      rw (find-run_shard key method s j) (elim (Bool-cases (i == i')) [
        | inl e ↦
            let same : i ≡ i' = (==_iff i i').0 e in
            rw (← same, get_or-set_self s.shards i db' [] (shard-lt hash s v key), same)
              (rw same at h)
        | inr e ↦
            rw (get_or-set_ne s.shards i i' db' [] (λ q. ne_of_test e q), other_shard key s j e)
      ])
