-- ===== src/Core/Sharded/Step.antt =====
-- The operations on one key: each takes the key's shard, runs a method of `Database` on it, and
-- books the change of its length.
use rustkv_lab.Prelude.{
  ℕ, ◌+◌, ◌-◌, ◌%◌, Bool, Option, List, [], ◌∷◌, Bytes, length, get_or, set, ok, err,
}
use rustkv_lab.Prelude.Int.{ℤ}
use rustkv_lab.Core.Error.{KvResult}
use rustkv_lab.Core.Time.{Clock, Outcome, returned, panicked}
use rustkv_lab.Core.Database
use rustkv_lab.Core.Database.{Database}
use rustkv_lab.Core.Sharded.{ShardedDatabase, DbOutcome, apply_len_change}

-- An answer, with the length of the shard before and after.
pub record Booked {ℓ} (R : Type ℓ) : Type ℓ where
  pub answer : R
  pub before : ℕ
  pub after : ℕ

-- A panic unwinds before the change of length is booked.
abbrev pub book {ℓ} :
    {R : Type ℓ} → ℕ → ℕ → Outcome R → ShardedDatabase → Outcome (Booked R) × ShardedDatabase
book before after panicked s = (panicked, s)
book before after (returned r) s = (
  returned (record { answer = r; before = before; after = after }),
  record s { key_count = apply_len_change before after s.key_count },
)

abbrev pub outcome_of {ℓ} : {A : Type ℓ} → Outcome (Booked (KvResult A)) → ℕ → Outcome (DbOutcome A)
outcome_of panicked key_count = panicked
outcome_of (returned b) key_count =
    returned
      (record { result = b.answer; key_count = key_count; expired_count = b.before - b.after })

-- `set` and `set_at_ms` sweep the shard first, and count what the sweep removed.
abbrev pub swept_outcome :
    Outcome (Booked (KvResult (Unit {0}) × ℕ)) → ℕ → Outcome (DbOutcome (Unit {0}))
swept_outcome panicked key_count = panicked
swept_outcome (returned b) key_count =
    returned (record { result = b.answer.0; key_count = key_count; expired_count = b.answer.1 })

abbrev pub with_count {ℓ} : {A : Type ℓ} → ℕ → Outcome A → Outcome (A × ℕ)
with_count n panicked = panicked
with_count n (returned a) = returned (a, n)

unfoldable pub swept :
    Clock → Database.Method (Unit {0}) → Database → Outcome (KvResult (Unit {0}) × ℕ) × Database
unfolding Database.remove_expired
swept c method db =
    let (expired_count, db') = Database.remove_expired c db in
    let (r, db'') = method db' in (with_count expired_count r, db'')

module _ (hash : Bytes → ℕ) where
  unfoldable pub shard_for_key : ShardedDatabase → Bytes → ℕ
  shard_for_key s key = hash key % length s.shards

  unfoldable pub run_shard {ℓ} :
      {R : Type ℓ}
      → Bytes
      → (Database → Outcome R × Database)
      → ShardedDatabase
      → Outcome (Booked R) × ShardedDatabase
  unfolding shard_for_key apply_len_change
  run_shard key method s =
      let shard = shard_for_key s key in
      let db = get_or s.shards shard [] in
      let (r, db') = method db in
      book (length db) (length db') r (record s { shards = set s.shards shard db' })

  unfoldable pub run_key {ℓ} :
      {A : Type ℓ}
      → Bytes
      → Database.Method A
      → ShardedDatabase
      → Outcome (DbOutcome A) × ShardedDatabase
  unfolding run_shard
  run_key key method s = let (o, s') = run_shard key method s in (outcome_of o s'.key_count, s')

  unfoldable pub run_swept :
      Clock
      → Bytes
      → Database.Method (Unit {0})
      → ShardedDatabase
      → Outcome (DbOutcome (Unit {0})) × ShardedDatabase
  unfolding run_shard swept
  run_swept c key method s =
      let (o, s') = run_shard key (swept c method) s in (swept_outcome o s'.key_count, s')

  unfoldable pub set_key :
      Clock
      → Bytes
      → Bytes
      → Option ℕ
      → ShardedDatabase
      → Outcome (DbOutcome (Unit {0})) × ShardedDatabase
  unfolding run_swept Database.set
  set_key c key value expire = run_swept c key (Database.set c key value expire)

  unfoldable pub set_at_ms :
      Clock → Bytes → Bytes → ℕ → ShardedDatabase → Outcome (DbOutcome (Unit {0})) × ShardedDatabase
  unfolding run_swept Database.set_at_ms
  set_at_ms c key value timestamp_ms = run_swept c key (Database.set_at_ms c key value timestamp_ms)

  unfoldable pub get :
      Clock → Bytes → ShardedDatabase → Outcome (DbOutcome (Option Bytes)) × ShardedDatabase
  unfolding run_key Database.get
  get c key = run_key key (Database.get c key)

  unfoldable pub exists :
      Clock → Bytes → ShardedDatabase → Outcome (DbOutcome Bool) × ShardedDatabase
  unfolding run_key Database.exists
  exists c key = run_key key (Database.exists c key)

  unfoldable pub expire :
      Clock → Bytes → ℕ → ShardedDatabase → Outcome (DbOutcome Bool) × ShardedDatabase
  unfolding run_key Database.expire
  expire c key seconds = run_key key (Database.expire c key seconds)

  unfoldable pub expire_at_ms :
      Clock → Bytes → ℕ → ShardedDatabase → Outcome (DbOutcome Bool) × ShardedDatabase
  unfolding run_key Database.expire_at_ms
  expire_at_ms c key timestamp_ms = run_key key (Database.expire_at_ms c key timestamp_ms)

  unfoldable pub ttl : Clock → Bytes → ShardedDatabase → Outcome (DbOutcome ℤ) × ShardedDatabase
  unfolding run_key Database.ttl
  ttl c key = run_key key (Database.ttl c key)

  -- The loop of `del`, one shard for each key. A method that fails ends the loop. The lock of the
  -- shard is released between two keys; what this computes is the loop without another task's
  -- operations between its rounds.
  unfoldable pub del_loop :
      Clock → List Bytes → ℕ → ℕ → ShardedDatabase → Outcome (DbOutcome ℕ) × ShardedDatabase
  unfolding run_shard Database.del
  del_loop c [] removed expired_count s = (
    returned
        (record { result = ok removed; key_count = s.key_count; expired_count = expired_count }),
    s,
  )
  del_loop c (key ∷ keys) removed expired_count s =
      let (o, s') = run_shard key (Database.del c (key ∷ [])) s in
      elim o [
        | panicked ↦ (panicked, s')
        | returned b ↦ elim b.answer [
          | err e ↦ (
            returned (record {
              result = err e;
              key_count = s'.key_count;
              expired_count = expired_count;
            }),
            s',
          )
          | ok count ↦
              del_loop c keys (removed + count) (expired_count + (b.before - b.after - count)) s'
        ]
      ]

  unfoldable pub del :
      Clock → List Bytes → ShardedDatabase → Outcome (DbOutcome ℕ) × ShardedDatabase
  unfolding del_loop
  del c keys = del_loop c keys 0 0
