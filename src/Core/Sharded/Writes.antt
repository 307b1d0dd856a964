-- ===== src/Core/Sharded/Writes.antt =====
-- What `set`, `expire` and `del` make visible.
use rustkv_lab.Prelude.{
  ℕ, ◌+◌, ◌≤◌, ◌<◌, ◌≡◌, refl, ap, ◌∙◌, Bool, true, false, Option, none, some, arith, [], Bytes,
  bytes_eq, if◌then◌else◌, get_or, length, ok,
}
use rustkv_lab.Core.HashMap.{lookup}
use rustkv_lab.Core.HashMap.Laws.{IsUnique}
use rustkv_lab.Core.Time.{Clock, returned, instant_limit, instant_add, from_secs}
use rustkv_lab.Core.Entry.{Entry}
use rustkv_lab.Core.Entry
use rustkv_lab.Core.Database
use rustkv_lab.Core.Database.{Database, value_of, is_some, del_one}
use rustkv_lab.Core.Database.View.{
  live, live-live, lookup-set, lookup-remove_expired, expire_lem, lookup-expire, with_deadline,
}
use rustkv_lab.Core.Sharded.{ShardedDatabase, apply_len_change}
use rustkv_lab.Core.Sharded.Step.{shard_for_key, run_swept, swept, set_key, expire}
use rustkv_lab.Core.Sharded.Valid.{IsValid, shard-IsUnique}
use rustkv_lab.Core.Sharded.View.{visible, visible-run_shard}
use rustkv_lab.Core.Sharded.Reads.{Answers, run_key-Answers}

pub live-if :
    (later reading : ℕ) (b : Bool) (y : Option Entry) (o : Option Entry)
    → reading ≤ later
    → live later (if b then y else live reading o) ≡ (if b then live later y else live later o)
live-if later reading true y o h = refl
live-if later reading false y o h = live-live reading later o h

pub live-if_same :
    (later : ℕ) (b : Bool) (y o : Option Entry)
    → live later (if b then y else o) ≡ (if b then live later y else live later o)
live-if_same later true y o = refl
live-if_same later false y o = refl

-- The deadline, so long after the reading for it, and that it can be represented.
abbrev pub deadline_of : Clock → Option ℕ → Option ℕ
deadline_of c none = none
deadline_of c (some duration) = some (c.instant + duration)

abbrev pub Fits : Clock → Option ℕ → Type 0
Fits c none = Unit
Fits c (some duration) = c.instant + duration < instant_limit

module _ (hash : Bytes → ℕ) (key : Bytes) (s : ShardedDatabase) (v : IsValid hash s)
    (c : Clock) where
  pub run_swept-Answers :
      (method : Database.Method (Unit {0}))
      → (method (Database.remove_expired c (get_or s.shards (shard_for_key hash s key) [])).1).0
        ≡ returned (ok tt)
      → Answers (run_swept hash c key method s).0 tt
  unfolding run_swept
  run_swept-Answers method e =
      let db = get_or s.shards (shard_for_key hash s key) [] in
      let swept_db = (Database.remove_expired c db).1 in
      (
        record {
          result = ok tt;
          key_count = apply_len_change (length db) (length (method swept_db).1) s.key_count;
          expired_count = (Database.remove_expired c db).0;
        },
        rw (run_swept, e),
        refl,
      )

  answers_set :
      (value : Bytes) (expire : Option ℕ) (e : Entry) (db : Database)
      → Entry.new c.instant value expire ≡ returned e
      → (Database.set c key value expire db).0 ≡ returned (ok tt)
  unfolding Database.set
  answers_set value expire e db h = rw (Database.set, h)

  lookup-swept-set :
      (value : Bytes) (expire : Option ℕ) (e : Entry) (db : Database) (j : Bytes)
      → IsUnique db
      → Entry.new c.instant value expire ≡ returned e
      → lookup j (swept c (Database.set c key value expire) db).1
        ≡ (if bytes_eq key j then some e else live (c.scan j) (lookup j db))
  unfolding swept
  lookup-swept-set value expire e db j u h =
      lookup-set c key j (Database.remove_expired c db).1 value expire e h
      ∙ (rw (lookup-remove_expired c key j db u))

  -- With the entry that `Entry::new` makes.
  pub set-puts :
      (value : Bytes) (expire : Option ℕ) (e : Entry) (later : ℕ) (j : Bytes)
      → Entry.new c.instant value expire ≡ returned e
      → c.scan j ≤ later
      → Answers (set_key hash c key value expire s).0 tt
        × (visible hash later (set_key hash c key value expire s).1 j
            ≡ (if bytes_eq key j then live later (some e) else visible hash later s j))
  unfolding set_key
  set-puts value expire e later j h le =
      let db = get_or s.shards (shard_for_key hash s key) [] in
      (
        run_swept-Answers (Database.set c key value expire) (answers_set value expire e _ h),
        visible-run_shard hash key (swept c (Database.set c key value expire)) s later j
            (live later (some e)) v
            (ap (live later) (lookup-swept-set value expire e db j (shard-IsUnique hash s v key) h)
              ∙ live-if later (c.scan j) (bytes_eq key j) (some e) (lookup j db) le),
      )

  new_entry :
      (value : Bytes) (expire : Option ℕ)
      → Fits c expire
      → Entry.new c.instant value expire
        ≡ returned (record { value = value; expire_at = deadline_of c expire })
  unfolding Entry.new instant_add
  new_entry value none fits = refl
  new_entry value (some duration) fits = ground (arith, fits)

  -- `set` on a valid store, where the sum of the clock and the duration can be represented,
  -- succeeds; then, at any time from the sweep's reading on, its key shows the value with a
  -- deadline at that sum, or with none without a duration, until the deadline, and every other key
  -- what it showed.
  pub set-writes :
      (value : Bytes) (expire : Option ℕ) (later : ℕ) (j : Bytes)
      → Fits c expire
      → c.scan j ≤ later
      → Answers (set_key hash c key value expire s).0 tt
        × (visible hash later (set_key hash c key value expire s).1 j ≡ (
            if bytes_eq key j
            then live later (some (record { value = value; expire_at = deadline_of c expire }))
            else visible hash later s j))
  set-writes value expire later j fits le =
      set-puts value expire (record { value = value; expire_at = deadline_of c expire }) later j
        (new_entry value expire fits) le

  -- `expire` on a valid store, with a deadline that can be represented, answers whether an entry is
  -- visible; then that entry's deadline is the new one, and every other key shows what it showed.
  pub expire-writes :
      (secs : ℕ)
      → c.instant + from_secs secs < instant_limit
      → Answers (expire hash c key secs s).0 (is_some (visible hash (c.scan key) s key))
        × ((later : ℕ) (j : Bytes)
            → visible hash later (expire hash c key secs s).1 j ≡ (
                if bytes_eq key j
                then live later
                    (with_deadline (c.instant + from_secs secs) (visible hash (c.scan key) s key))
                else visible hash later s j))
  unfolding expire visible
  expire-writes secs h =
      let db = get_or s.shards (shard_for_key hash s key) [] in
      let moved = with_deadline (c.instant + from_secs secs) (live (c.scan key) (lookup key db)) in
      (
        run_key-Answers hash key s (Database.expire c key secs) _ (expire_lem c key key db secs h),
        λ later j.
            visible-run_shard hash key (Database.expire c key secs) s later j (live later moved) v (
              ap (live later) (lookup-expire c key j db secs h)
              ∙ live-if_same later (bytes_eq key j) moved (lookup j db)),
      )
