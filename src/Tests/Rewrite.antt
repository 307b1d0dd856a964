-- ===== src/Tests/Rewrite.antt =====
-- The theorems on the rewrite of the log.
use rustkv_lab.Prelude.{ℕ, ◌≡◌, refl, true, none, some, [], ◌∷◌, arith, Bytes, bytes_eq, ok}
use rustkv_lab.Text.{codes}
use rustkv_lab.Text.Utf8.{is_utf8}
use rustkv_lab.Text.Decimal.{to_string}
use rustkv_lab.Protocol.Encoder.{encode_resp}
use rustkv_lab.Core.HashMap.{lookup, insert, retain}
use rustkv_lab.Core.Sharded
use rustkv_lab.Core.Sharded.{ShardedDatabase, DbSnapshot, snapshot_entries}
use rustkv_lab.Core.Sharded.Step
use rustkv_lab.Core.Sharded.View.{visible}
use rustkv_lab.Core.Time.{Clock}
use rustkv_lab.Server.Disk.{Disk}
use rustkv_lab.Server.Aof.{loaded, load_and_replay, command_to_resp_bytes, encode_args}
use rustkv_lab.Server.Aof.Rewrite.{rewrite, rewrite_backup_path}
use rustkv_lab.Server.Aof.Rewrite.Safe.{Survives}
use rustkv_lab.Server.Aof.Rewrite.Written.{entries_bytes}
use rustkv_lab.Server.Aof.Rewrite.Done.{rewrite-Survives}
use rustkv_lab.Server.Aof.Rewrite.Installed.{Installs, rewrite-Installs}
use rustkv_lab.Server.Aof.Rewrite.Compacts.{IsRestored, rewrite-restores}
use rustkv_lab.Tests.Store.{hash, clock_at, key, store, store-IsValid}

abbrev path : Bytes
path = codes "kv.aof"

abbrev snapshot : DbSnapshot
snapshot = record {
  entries =
      record { key = key; value = codes "v"; expire_at_ms = some 10000 }
      ∷ record { key = codes "c"; value = codes "w"; expire_at_ms = none }
      ∷ [];
  key_count = 2;
  expired_count = 0;
}

abbrev quiet_disk : Disk
quiet_disk = record { files = (path, codes "old") ∷ []; faults = [] }

-- The second write fails after three bytes.
abbrev faulty_disk : Disk
faulty_disk = record {
  files = (path, codes "old") ∷ [];
  faults = none ∷ none ∷ none ∷ some (record { message = codes "no space"; written = 3 }) ∷ [];
}

rewrite-Survives_example :
    Survives path
      (rewrite_backup_path path)
      (codes "old")
      (entries_bytes (some 0) snapshot.entries)
      (rewrite path (some 0) snapshot true faulty_disk).2
unfolding lookup bytes_eq
rewrite-Survives_example =
    rewrite-Survives path (codes "old") (some 0) snapshot true faulty_disk refl

rewrite-Installs_example :
    Installs path
      (entries_bytes (some 0) snapshot.entries)
      (rewrite path (some 0) snapshot true quiet_disk)
rewrite-Installs_example = rewrite-Installs path (some 0) snapshot true quiet_disk

abbrev restart : ℕ → Clock
restart o = clock_at 900

rewrite-restores_example :
    (db : ShardedDatabase) × (load_and_replay hash restart
        (ok (
          lookup path
            (rewrite path
              (some 300)
              (snapshot_entries (clock_at 300) store).0
              true
              quiet_disk).2.files))
        (Sharded.new 4)
      ≡ loaded db)
    × ((j : Bytes)
        → IsRestored
            (clock_at 300)
            restart
            1000
            (visible hash 300 store j)
            (visible hash 1000 db j))
unfolding is_utf8 command_to_resp_bytes encode_args encode_resp to_string snapshot_entries
    Step.set_key Sharded.new insert retain bytes_eq
rewrite-restores_example =
    rewrite-restores hash (clock_at 300) store 4 restart 1000 path (some 300) quiet_disk
      store-IsValid refl (((refl, omega arith), omega arith), ((refl, omega arith), tt))
      (omega arith) (λ o. omega arith) (λ o k. omega arith)
