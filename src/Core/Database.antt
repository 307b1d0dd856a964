-- ===== src/Core/Database.antt =====
-- `Database` of `db.rs`, one shard of the store, with its methods of `storage.rs`. The struct has
-- one field, the map, which stands for it. Each method takes what it reads of the clocks.
pub mod View
pub mod Touches
use rustkv_lab.Prelude.{
  ℕ, zero, suc, ◌+◌, ◌-◌, ◌*◌, ◌/◌, ◌%◌, ◌^◌, Bool, true, false, not, Option, none, some, List, [],
  ◌∷◌, map, Bytes, ltb, leb, if◌then◌else◌, length, Result, ok, err,
}
use rustkv_lab.Prelude.Int.{ℤ, pos, negsuc}
use rustkv_lab.Core.HashMap.{Map, lookup, insert, remove, retain}
use rustkv_lab.Core.Sort.{sort}
use rustkv_lab.Core.Error.{KvError, KvResult}
use rustkv_lab.Core.Time.{
  Clock, Outcome, returned, panicked, instant_add, duration_until_unix_ms, from_secs, as_secs,
  nanos_per_sec,
}
use rustkv_lab.Core.Entry
use rustkv_lab.Core.Entry.{Entry, with_expire_at, is_expired}

abbrev pub Database : Type 0
Database = Map Entry

unfoldable pub new : Database
new = []

unfoldable pub len : Database → ℕ
len db = length db

-- `size_of::<String>()` and `size_of::<Entry>()` on a 64-bit target
abbrev pub size_of_string : ℕ
size_of_string = 24

abbrev pub size_of_entry : ℕ
size_of_entry = 40

unfoldable pub memory_estimate_bytes : Database → ℕ
memory_estimate_bytes [] = 0
memory_estimate_bytes ((key, entry) ∷ db) =
    size_of_string + length key + size_of_entry + length entry.value + memory_estimate_bytes db

abbrev pub is_some_and {ℓ} : {A : Type ℓ} → (A → Bool) → Option A → Bool
is_some_and p none = false
is_some_and p (some a) = p a

-- The method's answer and the database that it leaves.
unfoldable pub remove_if_expired : Clock → Bytes → Database → Bool × Database
unfolding is_expired
remove_if_expired c key db =
    if is_some_and (is_expired (c.scan key)) (lookup key db)
    then (true, remove key db)
    else (false, db)

-- A method that may panic, with the answer of the `Result` and the database as it is then.
abbrev pub Method {ℓ} : Type ℓ → Type ℓ
Method A = Database → Outcome (KvResult A) × Database

abbrev pub insert_new : Bytes → Outcome Entry → Method (Unit {0})
insert_new key panicked db = (panicked, db)
insert_new key (returned entry) db = (returned (ok tt), insert key entry db)

-- No time is left, or a deadline lies ahead.
abbrev pub set_until : Clock → Bytes → Bytes → Option ℕ → Method (Unit {0})
set_until c key value none db = (returned (ok tt), remove key db)
set_until c key value (some duration) db =
    insert_new key (Entry.deadline_in value (instant_add c.instant duration)) db

unfoldable pub set_at_ms : Clock → Bytes → Bytes → ℕ → Method (Unit {0})
unfolding duration_until_unix_ms instant_add
set_at_ms c key value timestamp_ms =
    set_until c key value (duration_until_unix_ms c.unix timestamp_ms)

-- `entry.expire_at = Some(t)`, for the entry that `get_mut` found.
abbrev pub put_deadline : Bytes → Entry → Outcome ℕ → Method Bool
put_deadline key entry panicked db = (panicked, db)
put_deadline key entry (returned t) db =
    (returned (ok true), insert key (record entry { expire_at = some t }) db)

abbrev pub move_deadline : Clock → Bytes → Option Entry → ℕ → Method Bool
move_deadline c key none duration db = (returned (ok false), db)
move_deadline c key (some entry) duration db =
    put_deadline key entry (instant_add c.instant duration) db

abbrev pub is_some {ℓ} : {A : Type ℓ} → Option A → Bool
is_some none = false
is_some (some a) = true

abbrev pub expire_until : Clock → Bytes → Option ℕ → Method Bool
expire_until c key none db = (returned (ok (is_some (lookup key db))), remove key db)
expire_until c key (some duration) db = move_deadline c key (lookup key db) duration db

unfoldable pub expire_at_ms : Clock → Bytes → ℕ → Method Bool
unfolding remove_if_expired duration_until_unix_ms instant_add
expire_at_ms c key timestamp_ms db =
    let (expired, db') = remove_if_expired c key db in
    if expired
    then (returned (ok false), db')
    else expire_until c key (duration_until_unix_ms c.unix timestamp_ms) db'

unfoldable pub set : Clock → Bytes → Bytes → Option ℕ → Method (Unit {0})
unfolding Entry.new
set c key value expire db = insert_new key (Entry.new c.instant value expire) db

abbrev pub value_of : Option Entry → Option Bytes
value_of none = none
value_of (some entry) = some entry.value

unfoldable pub get : Clock → Bytes → Method (Option Bytes)
unfolding remove_if_expired
get c key db =
    let (expired, db') = remove_if_expired c key db in
    if expired then (returned (ok none), db') else (returned (ok (value_of (lookup key db'))), db')

-- One round of the loop of `del`, with what it adds to `removed`.
unfoldable pub del_one : Clock → Bytes → Database → ℕ × Database
unfolding remove_if_expired
del_one c key db =
    let (expired, db') = remove_if_expired c key db in
    if expired then (0, db') else (if is_some (lookup key db') then 1 else 0, remove key db')

unfoldable pub del_loop : Clock → List Bytes → ℕ → Database → ℕ × Database
unfolding del_one
del_loop c [] removed db = (removed, db)
del_loop c (key ∷ keys) removed db =
    let (n, db') = del_one c key db in del_loop c keys (removed + n) db'

unfoldable pub del : Clock → List Bytes → Method ℕ
unfolding del_loop
del c keys db = let (removed, db') = del_loop c keys 0 db in (returned (ok removed), db')

unfoldable pub exists : Clock → Bytes → Method Bool
unfolding remove_if_expired
exists c key db =
    let (expired, db') = remove_if_expired c key db in
    if expired then (returned (ok false), db') else (returned (ok (is_some (lookup key db'))), db')

-- The keys of the entries that are not expired, in the order of the map.
unfoldable pub live_keys : Clock → Database → List Bytes
unfolding is_expired
live_keys c [] = []
live_keys c ((key, entry) ∷ db) =
    let rest = live_keys c db in if is_expired (c.scan key) entry then rest else key ∷ rest

unfoldable pub keys : Clock → Database → KvResult (List Bytes)
unfolding live_keys sort
keys c db = ok (sort (live_keys c db))

unfoldable pub expire : Clock → Bytes → ℕ → Method Bool
unfolding remove_if_expired instant_add
expire c key secs db =
    let (expired, db') = remove_if_expired c key db in
    if expired
    then (returned (ok false), db')
    else move_deadline c key (lookup key db') (from_secs secs) db'

-- `n as i64`
abbrev pub as_i64 : ℕ → ℤ
as_i64 n = if ltb n (2 ^ 63) then pos n else negsuc (2 ^ 64 - 1 - n)

-- Whole seconds, rounded up.
unfoldable pub ceil_secs : ℕ → ℕ
ceil_secs remaining = as_secs remaining + (if ltb 0 (remaining % nanos_per_sec) then 1 else 0)

abbrev pub time_left : ℕ → Bytes → Option ℕ → Database → ℤ × Database
time_left now key none db = (negsuc 0, db)
time_left now key (some t) db =
    if leb t now then (negsuc 1, remove key db) else (as_i64 (ceil_secs (t - now)), db)

abbrev pub ttl_of : ℕ → Bytes → Option Entry → Database → ℤ × Database
ttl_of now key none db = (negsuc 1, db)
ttl_of now key (some entry) db = time_left now key entry.expire_at db

unfoldable pub ttl : Clock → Bytes → Method ℤ
unfolding remove_if_expired ceil_secs
ttl c key db =
    let (expired, db') = remove_if_expired c key db in
    if expired
    then (returned (ok (negsuc 1)), db')
    else let (t, db'') = ttl_of c.instant key (lookup key db') db' in (returned (ok t), db'')

unfoldable pub flushdb : Database → KvResult (Unit {0}) × Database
flushdb db = (ok tt, [])

-- `retain` with the test of the program: what is not expired stays.
abbrev pub is_live : Clock → Bytes → Entry → Bool
is_live c key entry = not (is_expired (c.scan key) entry)

unfoldable pub remove_expired : Clock → Database → ℕ × Database
unfolding is_expired
remove_expired c db = let db' = retain (is_live c) db in (length db - length db', db')
