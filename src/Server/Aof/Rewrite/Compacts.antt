-- ===== src/Server/Aof/Rewrite/Compacts.antt =====
-- A rewrite of the log loses nothing: what was visible is shown again after a restart.
use rustkv_lab.Prelude.{
  ℕ, zero, suc, ◌+◌, ◌-◌, ◌≤◌, ◌<◌, ◌≡◌, refl, ◌∙◌, true, Option, none, some, List, [], map, Bytes,
  arith, length, get_or, replicate, ok, All,
}
use rustkv_lab.Core.HashMap.{lookup}
use rustkv_lab.Core.Time.{Clock, current_unix_ms, unix_ms_after}
use rustkv_lab.Core.Entry.{Entry}
use rustkv_lab.Core.Database.{Database}
use rustkv_lab.Core.Sharded
use rustkv_lab.Core.Sharded.{
  ShardedDatabase, DbSnapshotEntry, usize_limit, snapshot_entry, snapshot_entries,
}
use rustkv_lab.Core.Sharded.Valid.{IsValid}
use rustkv_lab.Core.Sharded.View.{visible, find}
use rustkv_lab.Core.Sharded.Entries.{noted, snapshot_entries-IsUnique, lookup-snapshot_entries}
use rustkv_lab.Server.Disk.{Disk}
use rustkv_lab.Server.Aof.{loaded, load_and_replay}
use rustkv_lab.Server.Aof.Bounded.{new-IsBounded}
use rustkv_lab.Server.Aof.Log.{IsLoggable}
use rustkv_lab.Server.Aof.Rewrite.{rewrite}
use rustkv_lab.Server.Aof.Rewrite.Loads.{snapshot_appended, rewrite-loads}
use rustkv_lab.Server.Aof.Rewrite.Restores.{IsEarly, shown, Shows, replay_log-Replays}

-- A deadline as a time stamp of the system clock.
abbrev pub stamp : Clock → Option ℕ → Option ℕ
stamp c o = elim o [
  | none ↦ none
  | some t ↦ some (unix_ms_after (current_unix_ms c.unix) (t - c.instant))
]

-- What is shown `now` under a key, under which `before` was visible for the snapshot at `c`: the same
-- value, until its deadline on the system clock.
abbrev pub IsRestored : Clock → (ℕ → Clock) → ℕ → Option Entry → Option Entry → Type 0
IsRestored c clock later none now = now ≡ none
IsRestored c clock later (some e) now =
    (o : ℕ) × (now ≡ shown (clock o) later e.value (stamp c e.expire_at))

get_or-replicate : (n i : ℕ) → get_or (replicate {A = Database} n []) i [] ≡ []
get_or-replicate zero i = refl
get_or-replicate (suc n) zero = refl
get_or-replicate (suc n) (suc i) = get_or-replicate n i

visible-new :
    (hash : Bytes → ℕ) (n later : ℕ) (j : Bytes) → visible hash later (Sharded.new n) j ≡ none
unfolding visible find Sharded.new lookup
visible-new hash n later j = rw get_or-replicate refl

Shows-IsRestored :
    (c : Clock) (clock : ℕ → Clock) (later : ℕ) (j : Bytes) (before now empty : Option Entry)
    → empty ≡ none
    → Shows clock later (noted c.instant (current_unix_ms c.unix) j before) now empty
    → IsRestored c clock later before now
unfolding snapshot_entry
Shows-IsRestored c clock later j none now empty e h = h ∙ e
Shows-IsRestored c clock later j (some e) now empty q h = h

module _ (hash : Bytes → ℕ) (c : Clock) (s : ShardedDatabase) (n : ℕ) (clock : ℕ → Clock)
    (later : ℕ) where
  abbrev entries : List DbSnapshotEntry
  entries = (snapshot_entries c s).0.entries

  -- A rewrite of the log with a snapshot of a valid store, in which no call of the disk fails,
  -- keeps what was visible: a server that then starts on the log loads it, and shows no entry where
  -- none was visible, and otherwise the same value, until its deadline on the system clock if it
  -- has one. The snapshot's keys are UTF-8, each frame is below 2^59 bytes, the entries are fewer
  -- than 2^64 - 1; the clocks of the replay leave room for a deadline of 2^64 milliseconds, and
  -- what is shown is read after the replay.
  pub rewrite-restores :
      (path : Bytes) (unix : Option ℕ) (d : Disk)
      → IsValid hash s
      → d.faults ≡ []
      → All IsLoggable (map (snapshot_appended unix) (snapshot_entries c s).0.entries)
      → length (snapshot_entries c s).0.entries + 1 < usize_limit
      → ((o : ℕ) → IsEarly (clock o))
      → ((o : ℕ) (k : Bytes) → (clock o).scan k ≤ later)
      → (db : ShardedDatabase) × (load_and_replay hash clock
            (ok (lookup path (rewrite path unix (snapshot_entries c s).0 true d).2.files))
            (Sharded.new n)
          ≡ loaded db)
        × ((j : Bytes)
            → IsRestored c clock later (visible hash c.instant s j) (visible hash later db j))
  rewrite-restores path unix d v quiet loggable fits early past =
      let replayed =
        replay_log-Replays hash clock later early past unix entries 0 0 (Sharded.new n)
          (snapshot_entries-IsUnique hash c s v) (new-IsBounded hash n) (omega arith) in
      (
        replayed.after,
        (rewrite-loads hash path unix (snapshot_entries c s).0 d clock (Sharded.new n) quiet
              loggable).1
            ∙ replayed.loads,
        λ j.
            Shows-IsRestored c clock later j (visible hash c.instant s j) _ _
              (visible-new hash n later j)
              (rw (lookup-snapshot_entries hash c s v j) at (replayed.shows j)),
      )
