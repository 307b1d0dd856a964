-- ===== src/Core/Sharded/Snapshot.antt =====
-- `snapshot_entries` sweeps the store as `remove_expired` does, at one reading of the clock.
use rustkv_lab.Prelude.{
  ℕ, ◌+◌, ◌<◌, ◌≡◌, refl, sym, subst, ap, true, false, not, Option, none, some, List, [], ◌∷◌,
  arith, Bytes, ltb, leb,
}
use mathlib.Core.Path.{fun_ext}
use rustkv_lab.Core.HashMap.{retain}
use rustkv_lab.Core.Time.{Clock, current_unix_ms}
use rustkv_lab.Core.Entry.{is_expired}
use rustkv_lab.Core.Database
use rustkv_lab.Core.Database.{Database, is_live}
use rustkv_lab.Core.Sharded.{
  ShardedDatabase, DbSnapshotEntry, usize_limit, sweep, remove_expired, before_deadline,
  snapshot_loop, snapshot_entries,
}
use rustkv_lab.Core.Sharded.Valid.{IsValid, total}
use rustkv_lab.Core.Sharded.Sweep.{remove_expired-IsValid}

-- The clock that reads the same instant for every entry.
abbrev pub at_once : Clock → Clock
at_once c = record c { scan = λ k. c.instant }

same_test_at :
    (now : ℕ) (o : Option ℕ)
    → (elim o [ none ↦ true | some t ↦ ltb now t ])
      ≡ not (elim o [ none ↦ false | some t ↦ leb t now ])
same_test_at now none = refl
same_test_at now (some t) = ground arith

same_test : (c : Clock) → before_deadline c.instant ≡ is_live (at_once c)
unfolding is_expired
same_test c = fun_ext (λ k. fun_ext (λ e. same_test_at c.instant e.expire_at))

-- The shards, the key count and the number of the removed.
abbrev Swept : Type 0
Swept = List Database × ℕ × ℕ

abbrev without_entries : List Database × ℕ × ℕ × List DbSnapshotEntry → Swept
without_entries (shards, key_count, expired_count, entries) = (shards, key_count, expired_count)

pub snapshot_loop-sweep :
    (c : Clock) (unix_ms : ℕ) (shards : List Database) (key_count expired_count : ℕ)
    (entries : List DbSnapshotEntry)
    → without_entries (snapshot_loop c.instant unix_ms shards key_count expired_count entries)
      ≡ sweep (at_once c) shards key_count expired_count
unfolding snapshot_loop sweep Database.remove_expired
snapshot_loop-sweep c unix_ms [] key_count expired_count entries = refl
snapshot_loop-sweep c unix_ms (db ∷ shards) key_count expired_count entries = rw (same_test c) (
    ap (λ (s, n, m). (retain (is_live (at_once c)) db ∷ s, n, m))
      (snapshot_loop-sweep c unix_ms shards _ _ _))

abbrev IsBooked : (Bytes → ℕ) → ℕ → Swept → Type 0
IsBooked hash before (shards, key_count, expired_count) =
    IsValid hash (record { shards = shards; key_count = key_count })
    × (key_count ≡ total shards)
    × (key_count + expired_count ≡ before)

-- The snapshot for a rewrite of the log keeps the invariant; the key count that it reports is the
-- number of entries left, and with the number of those it removed, the key count before.
pub snapshot_entries-IsValid :
    (hash : Bytes → ℕ) (c : Clock) (s : ShardedDatabase)
    → IsValid hash s
    → total s.shards < usize_limit
    → IsValid hash (snapshot_entries c s).1
      × ((snapshot_entries c s).0.key_count ≡ total (snapshot_entries c s).1.shards)
      × ((snapshot_entries c s).0.key_count + (snapshot_entries c s).0.expired_count ≡ s.key_count)
unfolding snapshot_entries remove_expired
snapshot_entries-IsValid hash c s v fits =
    let (v', exact) = remove_expired-IsValid hash (at_once c) s v fits in
    let same = snapshot_loop-sweep c (current_unix_ms c.unix) s.shards s.key_count 0 [] in
    subst (IsBooked hash s.key_count) (sym same) (v', v'.counted, omega (arith, exact))
