-- ===== src/Core/Database/View.antt =====
-- What each method answers, and what it leaves to be seen, in terms of the entries that are live.
-- Dropping an entry that has expired is not seen at any later time.
use rustkv_lab.Prelude.{
  ℕ, ◌+◌, ◌-◌, ◌≤◌, ◌<◌, ◌≡◌, true, Option, none, some, Bytes, bytes_eq, bytes_eq_iff, leb,
  if◌then◌else◌, arith, ok, Option-cases, inl, inr,
}
use rustkv_lab.Prelude.Int.{ℤ, negsuc}
use rustkv_lab.Core.HashMap.{lookup, remove}
use rustkv_lab.Core.HashMap.Laws.{lookup-insert, lookup-remove, lookup-retain, IsUnique}
use rustkv_lab.Core.HashMap.Size.{presence}
use rustkv_lab.Core.Time.{
  Clock, returned, panicked, instant_limit, from_secs, duration_until_unix_ms,
}
use rustkv_lab.Core.Entry
use rustkv_lab.Core.Entry.{Entry, is_expired}
use rustkv_lab.Core.Database.{
  Database, remove_if_expired, is_some, value_of, get, set, exists, del_one, expire, expire_at_ms,
  ttl, remove_expired, as_i64, ceil_secs, is_live,
}

-- The entry, unless it has expired at `now`.
abbrev pub live : ℕ → Option Entry → Option Entry
live now none = none
live now (some e) = if is_expired now e then none else some e

-- What is expired stays expired.
pub live-live : (a b : ℕ) (o : Option Entry) → a ≤ b → live b (live a o) ≡ live b o
unfolding is_expired
live-live a b o h = ground arith

module _ (c : Clock) (k : Bytes) (db : Database) where
  pub lookup-remove_if_expired :
      (j : Bytes)
      → lookup j (remove_if_expired c k db).1
        ≡ (if bytes_eq k j then live (c.scan k) (lookup j db) else lookup j db)
  unfolding remove_if_expired
  lookup-remove_if_expired j = ground (arith, lookup-remove k j db, bytes_eq_iff k j)

  -- `get` answers with the live value.
  pub get_lem : (get c k db).0 ≡ returned (ok (value_of (live (c.scan k) (lookup k db))))
  unfolding get
  get_lem = ground arith

  pub exists_lem : (exists c k db).0 ≡ returned (ok (is_some (live (c.scan k) (lookup k db))))
  unfolding exists
  exists_lem = ground arith

  pub del_one_lem : (del_one c k db).0 ≡ presence (live (c.scan k) (lookup k db))
  unfolding del_one
  del_one_lem = ground arith

module _ (c : Clock) (k j : Bytes) (db : Database) (later : ℕ) (after : c.scan k ≤ later) where
  pub live-get : live later (lookup j (get c k db).1) ≡ live later (lookup j db)
  unfolding get is_expired
  live-get = ground (arith, lookup-remove k j db, bytes_eq_iff k j)

  pub live-exists : live later (lookup j (exists c k db).1) ≡ live later (lookup j db)
  unfolding exists is_expired
  live-exists = ground (arith, lookup-remove k j db, bytes_eq_iff k j)

  pub live-ttl : c.instant ≤ later → live later (lookup j (ttl c k db).1) ≡ live later (lookup j db)
  unfolding ttl is_expired
  live-ttl h =
      ground (arith, lookup-remove k j db, lookup-remove k j (remove k db), bytes_eq_iff k j)

module _ (c : Clock) (k j : Bytes) (db : Database) (later : ℕ) where
  pub live-del_one :
      live later (lookup j (del_one c k db).1)
      ≡ (if bytes_eq k j then none else live later (lookup j db))
  unfolding del_one is_expired
  live-del_one =
      ground (arith, lookup-remove k j db, lookup-remove k j (remove k db), bytes_eq_iff k j)

-- The entry with its deadline moved to `t`.
abbrev pub with_deadline : ℕ → Option Entry → Option Entry
with_deadline t none = none
with_deadline t (some e) = some (record e { expire_at = some t })

-- `EXPIRE` panics on a live entry, and changes nothing, if the new deadline is too far for the
-- clock.
pub expire_panics :
    (c : Clock) (k : Bytes) (db : Database) (secs : ℕ)
    → instant_limit ≤ c.instant + from_secs secs
    → is_some (live (c.scan k) (lookup k db)) ≡ true
    → expire c k secs db ≡ (panicked, db)
unfolding expire
expire_panics c k db secs h e = ground arith

module _ (c : Clock) (k j : Bytes) (db : Database) where
  -- `expire` answers whether there is a live entry, and moves its deadline.
  pub expire_lem :
      (secs : ℕ)
      → c.instant + from_secs secs < instant_limit
      → (expire c k secs db).0 ≡ returned (ok (is_some (live (c.scan k) (lookup k db))))
  unfolding expire
  expire_lem secs h = ground arith

  pub lookup-expire :
      (secs : ℕ)
      → c.instant + from_secs secs < instant_limit
      → lookup j (expire c k secs db).1 ≡ (
          if bytes_eq k j
          then with_deadline (c.instant + from_secs secs) (live (c.scan k) (lookup k db))
          else lookup j db)
  unfolding expire
  lookup-expire secs h = elim (Option-cases (lookup k db)) [
    | inl e ↦ ground (arith, e, bytes_eq_iff k j)
    | inr (x, e) ↦ ground (
      arith,
      e,
      lookup-remove k j db,
      lookup-insert k j (record x { expire_at = some (c.instant + from_secs secs) }) db,
      bytes_eq_iff k j,
    )
  ]

  pub expire_at_ms_lem :
      (ts duration : ℕ)
      → duration_until_unix_ms c.unix ts ≡ some duration
      → c.instant + duration < instant_limit
      → (expire_at_ms c k ts db).0 ≡ returned (ok (is_some (live (c.scan k) (lookup k db))))
  unfolding expire_at_ms
  expire_at_ms_lem ts duration e h = ground arith

  pub lookup-expire_at_ms :
      (ts duration : ℕ)
      → duration_until_unix_ms c.unix ts ≡ some duration
      → c.instant + duration < instant_limit
      → lookup j (expire_at_ms c k ts db).1 ≡ (
          if bytes_eq k j
          then with_deadline (c.instant + duration) (live (c.scan k) (lookup k db))
          else lookup j db)
  unfolding expire_at_ms
  lookup-expire_at_ms ts duration d h = elim (Option-cases (lookup k db)) [
    | inl e ↦ rw (expire_at_ms, d) (ground (arith, e, bytes_eq_iff k j))
    | inr (x, e) ↦
        rw (expire_at_ms, d)
          (ground (
            arith,
            e,
            lookup-remove k j db,
            lookup-insert k j (record x { expire_at = some (c.instant + duration) }) db,
            bytes_eq_iff k j,
          ))
  ]

  -- A time stamp that is past removes the entry.
  pub lookup-expire_at_ms_past :
      (ts : ℕ)
      → duration_until_unix_ms c.unix ts ≡ none
      → lookup j (expire_at_ms c k ts db).1 ≡ (if bytes_eq k j then none else lookup j db)
  unfolding expire_at_ms
  lookup-expire_at_ms_past ts d =
      rw (expire_at_ms, d)
        (ground (arith, lookup-remove k j db, lookup-remove k j (remove k db), bytes_eq_iff k j))

  pub lookup-set :
      (v : Bytes) (expire : Option ℕ) (e : Entry)
      → Entry.new c.instant v expire ≡ returned e
      → lookup j (set c k v expire db).1 ≡ (if bytes_eq k j then some e else lookup j db)
  unfolding set
  lookup-set v expire e h = rw (set, h) (lookup-insert k j e db)

  pub lookup-remove_expired :
      IsUnique db → lookup j (remove_expired c db).1 ≡ live (c.scan j) (lookup j db)
  unfolding remove_expired
  lookup-remove_expired u = rw (lookup-retain (is_live c) j db u) (ground arith)

-- `ttl` answers -2 where nothing is live, -1 without a deadline, and else the seconds left, rounded
-- up, which are at least one.
abbrev pub ttl_spec : ℕ → Option Entry → ℤ
ttl_spec now none = negsuc 1
ttl_spec now (some e) = elim e.expire_at [
  | none ↦ negsuc 0
  | some t ↦ if leb t now then negsuc 1 else as_i64 (ceil_secs (t - now))
]

pub ttl_lem :
    (c : Clock) (k : Bytes) (db : Database)
    → (ttl c k db).0 ≡ returned (ok (ttl_spec c.instant (live (c.scan k) (lookup k db))))
unfolding ttl
ttl_lem c k db = ground arith
