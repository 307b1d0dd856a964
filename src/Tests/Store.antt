-- ===== src/Tests/Store.antt =====
-- The store's theorems, on a store of two shards with one key that expires and one that does not.

use rustkv_lab.Prelude.{
  ℕ, ◌+◌, ◌^◌, ◌≡◌, refl, none, some, [], ◌∷◌, arith, Bytes, bytes_eq, if◌then◌else◌, length,
}
use rustkv_lab.Prelude.Int.{ℤ}
use rustkv_lab.Text.{codes}
use rustkv_lab.Core.HashMap.{lookup, insert, retain}
use rustkv_lab.Core.Time.{duration_until_unix_ms, Clock, panicked, from_secs}
use rustkv_lab.Core.Entry
use rustkv_lab.Core.Entry.{Entry, is_expired}
use rustkv_lab.Core.Database
use rustkv_lab.Core.Database.{Database, value_of, is_some}
use rustkv_lab.Core.Database.View.{live, with_deadline}
use rustkv_lab.Core.Sharded
use rustkv_lab.Core.Sharded.{ShardedDatabase, usize_limit}
use rustkv_lab.Core.Sharded.Step
use rustkv_lab.Core.Sharded.Valid.{IsValid, total}
use rustkv_lab.Core.Sharded.Keeps.{set-IsValid}
use rustkv_lab.Core.Sharded.Sweep.{new-IsValid}
use rustkv_lab.Core.Sharded.View.{visible}
use rustkv_lab.Core.Sharded.Reads.{Answers, SameView, IsTtl, get-reads, ttl-reads}
use rustkv_lab.Core.Sharded.Timestamps.{set_at_ms-writes}
use rustkv_lab.Core.Sharded.Writes.{set-writes, expire-writes}
use rustkv_lab.Core.Sharded.Panics.{set_key_panics}
use rustkv_lab.Core.Sharded.Deletes.{del-writes, contains, erased_count, seen}

abbrev pub hash : Bytes → ℕ
hash = length

abbrev pub clock_at : ℕ → Clock
clock_at now = record { scan = λ k. now; instant = now; unix = some now }

abbrev pub key : Bytes
key = codes "ab"

abbrev other_key : Bytes
other_key = codes "c"

abbrev entry : Entry
entry = record { value = codes "v"; expire_at = some (100 + from_secs 10) }

abbrev pub empty_store : ShardedDatabase
empty_store = Sharded.new 2

abbrev pub first : ShardedDatabase
first = (Step.set_key hash (clock_at 100) key (codes "v") (some (from_secs 10)) empty_store).1

abbrev pub store : ShardedDatabase
store = (Step.set_key hash (clock_at 200) other_key (codes "w") none first).1

first-IsValid : IsValid hash first
unfolding Step.set_key Sharded.new insert retain
first-IsValid =
    set-IsValid hash empty_store (new-IsValid hash 2) (omega arith) (clock_at 100) key (codes "v")
      (some (from_secs 10)) _ refl

pub store-IsValid : IsValid hash store
unfolding Step.set_key Sharded.new insert retain
store-IsValid =
    set-IsValid hash first first-IsValid (omega arith) (clock_at 200) other_key (codes "w") none _
      refl

-- At the new deadline the key is gone.
set-writes_example :
    Answers (Step.set_key hash (clock_at 300) key (codes "x") (some (from_secs 5)) store).0 tt
    × (visible hash
          (300 + from_secs 5)
          (Step.set_key hash (clock_at 300) key (codes "x") (some (from_secs 5)) store).1
          key
        ≡ none)
unfolding Entry.new bytes_eq is_expired
set-writes_example =
    set-writes hash key store store-IsValid (clock_at 300) (codes "x") (some (from_secs 5))
      (300 + from_secs 5) key (omega arith) (omega arith)

set_at_ms-writes_example :
    Answers (Step.set_at_ms hash (clock_at 300) key (codes "x") 5 store).0 tt
    × (visible hash 400 (Step.set_at_ms hash (clock_at 300) key (codes "x") 5 store).1 key
        ≡ some (record { value = codes "x"; expire_at = some 5000300 }))
unfolding duration_until_unix_ms bytes_eq is_expired
set_at_ms-writes_example =
    set_at_ms-writes hash key store store-IsValid (clock_at 300) (codes "x") 5 400 key (omega arith)
      (omega arith) (omega arith)

expire-writes_example :
    Answers (Step.expire hash (clock_at 300) key 60 store).0 (is_some (visible hash 300 store key))
    × ((later : ℕ) (j : Bytes)
        → visible hash later (Step.expire hash (clock_at 300) key 60 store).1 j ≡ (
            if bytes_eq key j
            then live later (with_deadline (300 + from_secs 60) (visible hash 300 store key))
            else visible hash later store j))
expire-writes_example = expire-writes hash key store store-IsValid (clock_at 300) 60 (omega arith)

del-writes_example :
    Answers
      (Step.del hash (clock_at 300) (key ∷ key ∷ []) store).0
      (erased_count (key ∷ key ∷ []) (seen hash (clock_at 300) store))
    × ((later : ℕ) (j : Bytes)
        → visible hash later (Step.del hash (clock_at 300) (key ∷ key ∷ []) store).1 j
          ≡ (if contains j (key ∷ key ∷ []) then none else visible hash later store j))
unfolding Step.set_key Sharded.new insert retain
del-writes_example =
    del-writes hash (clock_at 300) (key ∷ key ∷ []) store store-IsValid (omega arith)

-- At the deadline the key is gone.
get-reads_example :
    Answers (Step.get hash (clock_at (100 + from_secs 10)) key store).0 none
    × SameView hash (from_secs 20) (Step.get hash (clock_at (100 + from_secs 10)) key store).1 store
unfolding visible Step.set_key Sharded.new lookup insert retain bytes_eq
get-reads_example =
    get-reads hash key store store-IsValid (clock_at (100 + from_secs 10)) (from_secs 20)
      (omega arith)

ttl-reads_example :
    (t : ℤ) × Answers (Step.ttl hash (clock_at 500) key store).0 t
    × IsTtl 500 (visible hash 500 store key) t
    × SameView hash 500 (Step.ttl hash (clock_at 500) key store).1 store
unfolding visible Step.set_key Sharded.new lookup insert retain bytes_eq
ttl-reads_example =
    ttl-reads hash key store store-IsValid (clock_at 500) 500 (omega arith) (omega arith)
      (omega arith)

-- The key of the log's shard has expired, and the new deadline is too far for the clock.
set_key_panics_example :
    ((Step.set_key hash
        (clock_at (from_secs 20))
        key
        (codes "w")
        (some (from_secs (2 ^ 63)))
        first).0
      ≡ panicked)
    × ((Step.set_key hash
          (clock_at (from_secs 20))
          key
          (codes "w")
          (some (from_secs (2 ^ 63)))
          first).1.key_count
        ≡ first.key_count)
    × (total
            (Step.set_key hash
              (clock_at (from_secs 20))
              key
              (codes "w")
              (some (from_secs (2 ^ 63)))
              first).1.shards
          + 1
        ≡ first.key_count)
unfolding Step.set_key Sharded.new insert retain Database.remove_expired Step.shard_for_key
set_key_panics_example =
    set_key_panics hash (clock_at (from_secs 20)) key (codes "w") (some (from_secs (2 ^ 63))) first
      first-IsValid refl
