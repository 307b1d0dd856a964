-- ===== src/Core/Sharded/Timestamps.antt =====
-- What `set_at_ms` and `expire_at_ms`, with their deadline on the system clock, make visible.
use rustkv_lab.Prelude.{
  ℕ, ◌+◌, ◌-◌, ◌*◌, ◌/◌, ◌^◌, leb, ◌≤◌, ◌<◌, ◌≡◌, refl, ap, ◌∙◌, Option, none, some, [], arith,
  Bytes, bytes_eq, if◌then◌else◌, get_or, ok,
}
use rustkv_lab.Core.HashMap.{lookup}
use rustkv_lab.Core.HashMap.Laws.{IsUnique, lookup-insert, lookup-remove}
use rustkv_lab.Core.Time.{Clock, returned, instant_limit, duration_until_unix_ms}
use rustkv_lab.Core.Entry.{Entry}
use rustkv_lab.Core.Database
use rustkv_lab.Core.Database.{Database, is_some}
use rustkv_lab.Core.Database.View.{
  live, lookup-remove_expired, expire_at_ms_lem, lookup-expire_at_ms, with_deadline,
}
use rustkv_lab.Core.Sharded.{ShardedDatabase}
use rustkv_lab.Core.Sharded.Step.{shard_for_key, swept, set_at_ms, expire_at_ms}
use rustkv_lab.Core.Sharded.Valid.{IsValid, shard-IsUnique}
use rustkv_lab.Core.Sharded.View.{visible, visible-run_shard}
use rustkv_lab.Core.Sharded.Reads.{Answers, run_key-Answers}
use rustkv_lab.Core.Sharded.Writes.{Fits, live-if, live-if_same, run_swept-Answers}

-- The entry that a time stamp leaves: none if it is past.
abbrev pub dated : Clock → Bytes → Option ℕ → Option Entry
dated c value none = none
dated c value (some duration) =
    some (record { value = value; expire_at = some (c.instant + duration) })

-- The time from the system clock's reading, in whole milliseconds, to a time stamp; none if the stamp
-- is past, or the clock stands before the epoch.
abbrev pub left_until : Option ℕ → ℕ → Option ℕ
left_until none ts = none
left_until (some unix) ts =
    if leb ts (unix / 1000000) then none else some ((ts - unix / 1000000) * 1000000)

module _ (hash : Bytes → ℕ) (key : Bytes) (s : ShardedDatabase) (v : IsValid hash s)
    (c : Clock) where
  set_at_ms_ok :
      (value : Bytes) (ts : ℕ) (left : Option ℕ) (db : Database)
      → duration_until_unix_ms c.unix ts ≡ left
      → Fits c left
      → (Database.set_at_ms c key value ts db).0 ≡ returned (ok tt)
  unfolding Database.set_at_ms
  set_at_ms_ok value ts none db e fits = rw (Database.set_at_ms, e) refl
  set_at_ms_ok value ts (some duration) db e fits = rw (Database.set_at_ms, e) (ground arith)

  lookup-set_at_ms :
      (value : Bytes) (ts : ℕ) (left : Option ℕ) (db : Database) (j : Bytes)
      → duration_until_unix_ms c.unix ts ≡ left
      → Fits c left
      → lookup j (Database.set_at_ms c key value ts db).1
        ≡ (if bytes_eq key j then dated c value left else lookup j db)
  unfolding Database.set_at_ms
  lookup-set_at_ms value ts none db j e fits = rw (Database.set_at_ms, e) (lookup-remove key j db)
  lookup-set_at_ms value ts (some duration) db j e fits =
      rw (Database.set_at_ms, e)
        (ground (
          arith,
          lookup-insert key j (record { value = value; expire_at = some (c.instant + duration) })
              db,
        ))

  lookup-swept :
      (value : Bytes) (ts : ℕ) (left : Option ℕ) (db : Database) (j : Bytes)
      → IsUnique db
      → duration_until_unix_ms c.unix ts ≡ left
      → Fits c left
      → lookup j (swept c (Database.set_at_ms c key value ts) db).1
        ≡ (if bytes_eq key j then dated c value left else live (c.scan j) (lookup j db))
  unfolding swept
  lookup-swept value ts left db j u e fits =
      lookup-set_at_ms value ts left (Database.remove_expired c db).1 j e fits
      ∙ (rw (lookup-remove_expired c key j db u))

  -- With the duration that is read off the system clock.
  pub set_at_ms-puts :
      (value : Bytes) (ts : ℕ) (left : Option ℕ) (later : ℕ) (j : Bytes)
      → duration_until_unix_ms c.unix ts ≡ left
      → Fits c left
      → c.scan j ≤ later
      → Answers (set_at_ms hash c key value ts s).0 tt
        × (visible hash later (set_at_ms hash c key value ts s).1 j
            ≡ (if bytes_eq key j then live later (dated c value left) else visible hash later s j))
  unfolding set_at_ms
  set_at_ms-puts value ts left later j e fits le =
      let db = get_or s.shards (shard_for_key hash s key) [] in
      let method = Database.set_at_ms c key value ts in
      (
        run_swept-Answers hash key s v c method (set_at_ms_ok value ts left _ e fits),
        visible-run_shard hash key (swept c method) s later j (live later (dated c value left)) v (
            ap (live later) (lookup-swept value ts left db j (shard-IsUnique hash s v key) e fits)
            ∙ live-if later (c.scan j) (bytes_eq key j) (dated c value left) (lookup j db) le),
      )

  duration_until_lem :
      (unix : Option ℕ) (ts : ℕ) → ts < 2 ^ 64 → duration_until_unix_ms unix ts ≡ left_until unix ts
  unfolding duration_until_unix_ms
  duration_until_lem none ts lt = refl
  duration_until_lem (some unix) ts lt = ground (arith, lt)

  -- `set_at_ms` on a valid store, with a time stamp below 2^64: no time is left if the system time,
  -- in milliseconds rounded down, has reached the time stamp or stands before the epoch, else the
  -- time from now to the time stamp. Where the sum of the clock and the time left can be
  -- represented, it succeeds; then, at any time from the sweep's reading on, its key shows the
  -- value with a deadline at that sum, or nothing if no time is left, and every other key what it
  -- showed.
  pub set_at_ms-writes :
      (value : Bytes) (ts later : ℕ) (j : Bytes)
      → ts < 2 ^ 64
      → Fits c (left_until c.unix ts)
      → c.scan j ≤ later
      → Answers (set_at_ms hash c key value ts s).0 tt
        × (visible hash later (set_at_ms hash c key value ts s).1 j ≡ (
            if bytes_eq key j
            then live later (dated c value (left_until c.unix ts))
            else visible hash later s j))
  set_at_ms-writes value ts later j lt fits le =
      set_at_ms-puts value ts (left_until c.unix ts) later j (duration_until_lem c.unix ts lt) fits
        le

  -- `expire_at_ms` on a valid store, with a time stamp ahead whose deadline can be represented,
  -- answers whether an entry is visible; then that entry's deadline is the new one, and every other
  -- key shows what it showed.
  pub expire_at_ms-writes :
      (ts duration later : ℕ) (j : Bytes)
      → duration_until_unix_ms c.unix ts ≡ some duration
      → c.instant + duration < instant_limit
      → Answers (expire_at_ms hash c key ts s).0 (is_some (visible hash (c.scan key) s key))
        × (visible hash later (expire_at_ms hash c key ts s).1 j ≡ (
            if bytes_eq key j
            then live later (with_deadline (c.instant + duration) (visible hash (c.scan key) s key))
            else visible hash later s j))
  unfolding expire_at_ms visible
  expire_at_ms-writes ts duration later j e fits =
      let db = get_or s.shards (shard_for_key hash s key) [] in
      let moved = with_deadline (c.instant + duration) (live (c.scan key) (lookup key db)) in
      (
        run_key-Answers hash key s (Database.expire_at_ms c key ts) _
            (expire_at_ms_lem c key key db ts duration e fits),
        visible-run_shard hash key (Database.expire_at_ms c key ts) s later j (live later moved) v (
            ap (live later) (lookup-expire_at_ms c key j db ts duration e fits)
            ∙ live-if_same later (bytes_eq key j) moved (lookup j db)),
      )
