-- ===== src/Server/Aof/Rewrite/Loads.antt =====
-- A server that starts on a rewritten log runs the snapshot's commands.
use rustkv_lab.Prelude.{
  ℕ, true, ◌≡◌, refl, sym, ◌∙◌, ap, ap₂, Option, none, some, List, [], ◌∷◌, ◌++◌, append-nil, map,
  Bytes, ok, All,
}
use rustkv_lab.Core.HashMap.{lookup}
use rustkv_lab.Core.Time.{Clock}
use rustkv_lab.Core.Sharded.{ShardedDatabase, DbSnapshot, DbSnapshotEntry}
use rustkv_lab.Server.Disk.{Disk}
use rustkv_lab.Server.Aof.{
  loaded, load_and_replay, snapshot_command, snapshot_entry_to_resp_bytes, command_to_resp_bytes,
}
use rustkv_lab.Server.Aof.Log.{
  Appended, IsLoggable, log_of, written, replay_log, load_file, nothing_left,
}
use rustkv_lab.Server.Aof.Rewrite.{rewrite}
use rustkv_lab.Server.Aof.Rewrite.Written.{entries_bytes}
use rustkv_lab.Server.Aof.Rewrite.Succeeds.{rewrite-installs}

abbrev pub snapshot_appended : Option ℕ → DbSnapshotEntry → Appended
snapshot_appended unix entry = (unix, snapshot_command entry)

written-entry : (o : Option Bytes) → (elim o [ none ↦ [] | some bytes ↦ bytes ]) ≡ written o
written-entry none = refl
written-entry (some bytes) = refl

entries_bytes-log_of :
    (unix : Option ℕ) (entries : List DbSnapshotEntry)
    → entries_bytes unix entries ≡ log_of (map (snapshot_appended unix) entries)
unfolding snapshot_entry_to_resp_bytes
entries_bytes-log_of unix [] = refl
entries_bytes-log_of unix (entry ∷ entries) =
    ap₂ (λ a b. a ++ b) (written-entry (command_to_resp_bytes unix (snapshot_command entry)))
      (entries_bytes-log_of unix entries)

-- A rewrite of the log in which no call of the disk fails succeeds, and a server that then loads
-- the log runs the commands of the snapshot's entries, in their order. Each entry's key is UTF-8,
-- and its frame below 2^59 bytes.
pub rewrite-loads :
    (hash : Bytes → ℕ) (path : Bytes) (unix : Option ℕ) (snapshot : DbSnapshot) (d : Disk)
    (clock : ℕ → Clock) (db : ShardedDatabase)
    → d.faults ≡ []
    → All IsLoggable (map (snapshot_appended unix) snapshot.entries)
    → ((rewrite path unix snapshot true d).0 ≡ ok tt)
      × (load_and_replay hash clock
            (ok (lookup path (rewrite path unix snapshot true d).2.files))
            db
          ≡ replay_log hash clock (map (snapshot_appended unix) snapshot.entries) loaded 0 db)
rewrite-loads hash path unix snapshot d clock db quiet loggable =
    let (fine, is_open, bytes) = rewrite-installs path unix snapshot d quiet in
    let commands = map (snapshot_appended unix) snapshot.entries in
    (
      fine,
      ap (λ file. load_and_replay hash clock (ok file) db) bytes
          ∙ load_file hash clock commands [] (entries_bytes unix snapshot.entries) loaded db
              loggable (nothing_left hash clock)
              (entries_bytes-log_of unix snapshot.entries ∙ sym (append-nil (log_of commands))),
    )
