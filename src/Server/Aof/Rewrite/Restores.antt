-- ===== src/Server/Aof/Rewrite/Restores.antt =====
-- A server that loads the commands of a snapshot shows the snapshot's entries.
use rustkv_lab.Prelude.{
  ℕ, ◌+◌, ◌^◌, ◌≤◌, ◌<◌, ◌≡◌, refl, sym, ◌∙◌, ap, subst, Option, none, some, List, [], ◌∷◌, map,
  arith, Bytes, bytes_eq, bytes_eq_iff, if◌then◌else◌, leb, length, ok, inl, inr, Bool-cases,
}
use rustkv_lab.Core.HashMap.{lookup}
use rustkv_lab.Core.HashMap.Laws.{IsUnique}
use rustkv_lab.Core.Time.{
  Clock, Outcome, returned, instant_limit, from_millis, as_millis, duration_until_unix_ms,
}
use rustkv_lab.Core.Entry
use rustkv_lab.Core.Entry.{Entry}
use rustkv_lab.Core.Database.View.{live}
use rustkv_lab.Core.Sharded.{ShardedDatabase, DbOutcome, DbSnapshotEntry, usize_limit}
use rustkv_lab.Core.Sharded.Step
use rustkv_lab.Core.Sharded.Entries.{keyed}
use rustkv_lab.Core.Sharded.Valid.{total}
use rustkv_lab.Core.Sharded.Keeps.{set-IsValid, set_at_ms-IsValid}
use rustkv_lab.Core.Sharded.Grows.{Held, total-set_key, total-set_at_ms}
use rustkv_lab.Core.Sharded.View.{visible}
use rustkv_lab.Core.Sharded.Reads.{Answers}
use rustkv_lab.Core.Sharded.Writes.{Fits, set-puts}
use rustkv_lab.Core.Sharded.Timestamps.{dated, set_at_ms-puts}
use rustkv_lab.Core.Command.{Command}
use rustkv_lab.Server.Aof.{
  Loaded, loaded, Replayed, result_of, after_replay, replay_command, args_of, command_to_resp_bytes,
  snapshot_command,
}
use rustkv_lab.Server.Aof.Frames.{absolute}
use rustkv_lab.Server.Aof.Bounded.{IsBounded}
use rustkv_lab.Server.Aof.Log.{replay_frame, replay_log}
use rustkv_lab.Server.Aof.Rewrite.Loads.{snapshot_appended}

-- The clock stands so early that a deadline of 2^64 milliseconds can be represented.
abbrev pub IsEarly : Clock → Type 0
IsEarly c = c.instant + from_millis (2 ^ 64) < instant_limit

-- What is shown, at a later time, of an entry that was restored at the clock's readings.
abbrev pub shown : Clock → ℕ → Bytes → Option ℕ → Option Entry
shown c later value none = some (record { value = value; expire_at = none })
shown c later value (some timestamp_ms) =
    live later (dated c value (duration_until_unix_ms c.unix timestamp_ms))

duration_until_unix_ms-Fits :
    (c : Clock) (unix : Option ℕ) (timestamp_ms : ℕ)
    → IsEarly c
    → Fits c (duration_until_unix_ms unix timestamp_ms)
unfolding duration_until_unix_ms
duration_until_unix_ms-Fits c none timestamp_ms early = tt
duration_until_unix_ms-Fits c (some now) timestamp_ms early =
    elim (Bool-cases (leb timestamp_ms (as_millis now))) [
      | inl e ↦ rw e tt
      | inr e ↦ rw e (omega (arith, early))
    ]

result_of-ok :
    (r : Outcome (DbOutcome (Unit {0})) × ShardedDatabase)
    → Answers r.0 tt
    → result_of r ≡ (returned (ok tt), r.1)
result_of-ok (o, db) (out, e, f) = rw (e, f) refl

-- What an entry's command does to the store, if it succeeds.
record Wrote (hash : Bytes → ℕ) (c : Clock) (later : ℕ) (key value : Bytes) (o : Option ℕ) (n : ℕ)
    (db : ShardedDatabase) (r : Replayed) : Type 0 where
  ran : r.0 ≡ returned (ok tt)
  bounded : IsBounded hash (n + 1) r.1
  shows :
      (j : Bytes)
      → visible hash later r.1 j
        ≡ (if bytes_eq key j then shown c later value o else visible hash later db j)

abbrev entry_command : Bytes → Bytes → Option ℕ → Command
entry_command key value o = snapshot_command (record { key = key; value = value; expire_at_ms = o })

module _ (hash : Bytes → ℕ) (c : Clock) (later : ℕ) (early : IsEarly c)
    (past : (k : Bytes) → c.scan k ≤ later) (key value : Bytes) (n : ℕ) (db : ShardedDatabase)
    (b : IsBounded hash n db) (fits : n + 1 < usize_limit) where
  result_of-Wrote :
      (o : Option ℕ) (r : Outcome (DbOutcome (Unit {0})) × ShardedDatabase)
      → Answers r.0 tt
      → Held hash (total db.shards + 1) r
      → ((j : Bytes)
          → visible hash later r.1 j
            ≡ (if bytes_eq key j then shown c later value o else visible hash later db j))
      → Wrote hash c later key value o n db (result_of r)
  result_of-Wrote o r a h view =
      subst (Wrote hash c later key value o n db) (sym (result_of-ok r a)) (record {
        ran = refl;
        bounded = record { valid = h.valid a.0 a.1; few = omega (arith, h.few, b.few) };
        shows = view;
      })

  replay_command-Wrote :
      (o : Option ℕ)
      → Wrote hash c later key value o n db (replay_command hash c (entry_command key value o) db)
  unfolding replay_command Entry.new Entry.is_expired
  replay_command-Wrote none =
      let e : Entry = record { value = value; expire_at = none } in
      result_of-Wrote none (Step.set_key hash c key value none db)
        (set-puts hash key db b.valid c value none e later key refl (past key)).0
        (record {
          few = total-set_key hash c key db b.valid value none;
          valid = set-IsValid hash db b.valid (omega (arith, b.few)) c key value none;
        })
        (λ j. (set-puts hash key db b.valid c value none e later j refl (past j)).1)
  replay_command-Wrote (some timestamp_ms) =
      let left = duration_until_unix_ms c.unix timestamp_ms in
      let fine = duration_until_unix_ms-Fits c c.unix timestamp_ms early in
      result_of-Wrote (some timestamp_ms) (Step.set_at_ms hash c key value timestamp_ms db)
        (set_at_ms-puts hash key db b.valid c value timestamp_ms left later key refl fine
          (past key)).0
        (record {
          few = total-set_at_ms hash c key db b.valid value timestamp_ms;
          valid = set_at_ms-IsValid hash db b.valid (omega (arith, b.few)) c key value timestamp_ms;
        })
        (λ j.
          (set_at_ms-puts hash key db b.valid c value timestamp_ms left later j refl fine
            (past j)).1)

after_replay-ok :
    (hash : Bytes → ℕ) (next : ShardedDatabase → Loaded) (r : Replayed)
    → r.0 ≡ returned (ok tt)
    → after_replay hash next r ≡ next r.1
after_replay-ok hash next (o, db) e = rw e refl

-- What is shown under a key: what was, or what was restored of the entry.
abbrev pub Shows : (ℕ → Clock) → ℕ → Option DbSnapshotEntry → Option Entry → Option Entry → Type 0
Shows clock later none now before = now ≡ before
Shows clock later (some e) now before =
    (o : ℕ) × (now ≡ shown (clock o) later e.value e.expire_at_ms)

-- The replay of a snapshot's commands.
pub record Replays (hash : Bytes → ℕ) (clock : ℕ → Clock) (later : ℕ) (es : List DbSnapshotEntry)
    (db : ShardedDatabase) (r : Loaded) : Type 0 where
  pub after : ShardedDatabase
  pub loads : r ≡ loaded after
  pub shows :
      (j : Bytes)
      → Shows clock later
          (lookup j (keyed es))
          (visible hash later after j)
          (visible hash later db j)

module _ (hash : Bytes → ℕ) (clock : ℕ → Clock) (later : ℕ) (early : (o : ℕ) → IsEarly (clock o))
    (past : (o : ℕ) (k : Bytes) → (clock o).scan k ≤ later) (unix : Option ℕ) where
  replay_frame-runs :
      (key value : Bytes) (o : Option ℕ) (offset n : ℕ) (next : ℕ → ShardedDatabase → Loaded)
      (db : ShardedDatabase)
      → Wrote hash
          (clock offset)
          later
          key
          value
          o
          n
          db
          (replay_command hash (clock offset) (entry_command key value o) db)
      → (behind : ℕ) × (replay_frame hash clock
            (command_to_resp_bytes unix (entry_command key value o))
            (absolute unix (entry_command key value o))
            offset
            next
            db
          ≡ next behind (replay_command hash (clock offset) (entry_command key value o) db).1)
  unfolding command_to_resp_bytes args_of
  replay_frame-runs key value none offset n next db w = (_, after_replay-ok hash _ _ w.ran)
  replay_frame-runs key value (some timestamp_ms) offset n next db w =
      (_, after_replay-ok hash _ _ w.ran)

  lookup-Shows :
      (e : DbSnapshotEntry) (es : List DbSnapshotEntry) (offset : ℕ) (j : Bytes)
      (now between before : Option Entry)
      → lookup e.key (keyed es) ≡ none
      → between
        ≡ (if bytes_eq e.key j then shown (clock offset) later e.value e.expire_at_ms else before)
      → Shows clock later (lookup j (keyed es)) now between
      → Shows clock later (lookup j (keyed (e ∷ es))) now before
  unfolding lookup
  lookup-Shows e es offset j now between before u h k = elim (Bool-cases (bytes_eq e.key j)) [
    | inl q ↦
        let same : e.key ≡ j = (bytes_eq_iff e.key j).0 q in
        let gone : lookup j (keyed es) ≡ none = ap (λ i. lookup i (keyed es)) (sym same) ∙ u in
        rw q (offset, (rw gone at k) ∙ (rw q at h))
    | inr q ↦ rw q (rw (h, q) at k)
  ]

  pub replay_log-Replays :
      (es : List DbSnapshotEntry) (offset n : ℕ) (db : ShardedDatabase)
      → IsUnique (keyed es)
      → IsBounded hash n db
      → n + length es + 1 < usize_limit
      → Replays hash clock later es db
          (replay_log hash clock (map (snapshot_appended unix) es) loaded offset db)
  replay_log-Replays [] offset n db u b fits = record {
    after = db;
    loads = refl;
    shows = λ j. unfold lookup in refl;
  }
  replay_log-Replays (e ∷ es) offset n db u b fits =
      let w =
        replay_command-Wrote hash (clock offset) later (early offset) (past offset) e.key e.value n
          db b (omega arith) e.expire_at_ms in
      let (behind, runs) = replay_frame-runs e.key e.value e.expire_at_ms offset n _ db w in
      let rest = replay_log-Replays es behind (n + 1) _ u.1 w.bounded (omega arith) in
      record {
        after = rest.after;
        loads = runs ∙ rest.loads;
        shows = λ j. lookup-Shows e es offset j _ _ _ u.0 (w.shows j) (rest.shows j);
      }
