-- ===== src/Server/Aof/Rewrite.antt =====
-- The rewrite of the log, `AofEngine::rewrite`, and `maybe_rewrite_aof` of `server.rs`: a snapshot is
-- written to a file of its own, which then takes the place of the log. `is_open` says whether the
-- engine holds the log's file.
pub mod Stays
pub mod Safe
pub mod Written
pub mod Done
pub mod Installed
pub mod Prepared
pub mod Succeeds
pub mod Loads
pub mod Restores
pub mod Compacts
use rustkv_lab.Prelude.{
  ℕ, Bool, true, false, Option, none, some, List, [], ◌∷◌, ◌++◌, Bytes, ltb, if◌then◌else◌, Result,
  ok, err,
}
use rustkv_lab.Text.{codes}
use rustkv_lab.Core.Time.{Clock}
use rustkv_lab.Core.Sharded.{ShardedDatabase, DbSnapshot, DbSnapshotEntry, snapshot_entries}
use rustkv_lab.Server.Aof.{snapshot_entry_to_resp_bytes}
use rustkv_lab.Server.Disk.{
  Disk, IoError, not_found, other, Io, ◌>>=◌, ◌>>◌, done, remove_file, rename, open_append,
  open_truncate, write_all, sync, metadata_len,
}

-- For a path that ends in a file name of UTF-8.
unfoldable pub rewrite_temp_path : Bytes → Bytes
rewrite_temp_path path = path ++ codes ".rewrite"

unfoldable pub rewrite_backup_path : Bytes → Bytes
rewrite_backup_path path = path ++ codes ".bak"

abbrev pub or_missing {ℓ} : {A : Type ℓ} → A → Result IoError A × Disk → Result IoError A × Disk
or_missing a (ok b, d) = (ok b, d)
or_missing a (err not_found, d) = (ok a, d)
or_missing a (err (other message), d) = (err (other message), d)

unfoldable pub remove_file_if_exists : Bytes → Io (Unit {0})
unfolding remove_file
remove_file_if_exists path d = or_missing tt (remove_file path d)

-- Whether there was a file.
unfoldable pub rename_file_if_exists : Bytes → Bytes → Io Bool
unfolding rename
rename_file_if_exists from to d = or_missing false ((rename from to >> done true) d)

unfoldable pub file_size : Bytes → Io ℕ
unfolding metadata_len
file_size path d = or_missing 0 (metadata_len path d)

-- The `expect` does not fail: a `SET` has a frame.
abbrev pub entry_bytes : Option ℕ → DbSnapshotEntry → Bytes
entry_bytes unix entry = elim (snapshot_entry_to_resp_bytes unix entry) [
  | none ↦ []
  | some bytes ↦ bytes
]

unfoldable pub write_entries : Option ℕ → Bytes → List DbSnapshotEntry → Io (Unit {0})
unfolding write_all snapshot_entry_to_resp_bytes
write_entries unix path [] = done tt
write_entries unix path (entry ∷ entries) =
    write_all path (entry_bytes unix entry) >> write_entries unix path entries

unfoldable pub write_rewrite_file : Option ℕ → Bytes → DbSnapshot → Io (Unit {0})
unfolding open_truncate write_entries sync
write_rewrite_file unix path snapshot =
    open_truncate path >> write_entries unix path snapshot.entries >> sync >> sync

abbrev closed {ℓ} : {A : Type ℓ} → Io A
closed d = (err (other (codes "AOF file is temporarily closed")), d)

-- `AofEngine::flush`
unfoldable pub flush : Bool → Io (Unit {0})
unfolding sync
flush is_open = if is_open then sync >> sync else closed

-- What follows the second rename: a failed one is undone, if the log was moved.
abbrev pub after_swap :
    Bytes → Bytes → Bool → Result IoError (Unit {0}) × Disk → Result IoError (Unit {0}) × Disk
after_swap path backup_path true (ok u, d) = remove_file_if_exists backup_path d
after_swap path backup_path false (ok u, d) = (ok u, d)
after_swap path backup_path true (err e, d) = (err e, (rename backup_path path d).1)
after_swap path backup_path false (err e, d) = (err e, d)

unfoldable pub replace_aof_file : Bytes → Bytes → Bytes → Io (Unit {0})
unfolding remove_file_if_exists rename_file_if_exists rename
replace_aof_file path temp_path backup_path =
    remove_file_if_exists backup_path >> rename_file_if_exists path backup_path >>= λ backed_up d.
    after_swap path backup_path backed_up (rename temp_path path d)

abbrev pub Rewritten : Type 0
Rewritten = Result IoError (Unit {0}) × Bool × Disk

-- The `match` on the two results: the file is open if it was opened again.
abbrev pub reopened : Result IoError (Unit {0}) → Result IoError (Unit {0}) × Disk → Rewritten
reopened replaced (ok u, d) = (replaced, true, d)
reopened (ok u) (err e, d) = (err e, false, d)
reopened (err e) (err e', d) = (err e, false, d)

abbrev pub after_replace : Bytes → Result IoError (Unit {0}) × Disk → Rewritten
after_replace path (replaced, d) = reopened replaced (open_append path d)

-- What precedes `self.file.take()`.
unfoldable pub prepare : Bytes → Option ℕ → DbSnapshot → Bool → Io (Unit {0})
unfolding rewrite_temp_path remove_file_if_exists write_rewrite_file flush
prepare path unix snapshot is_open =
    remove_file_if_exists (rewrite_temp_path path)
    >> write_rewrite_file unix (rewrite_temp_path path) snapshot
    >> flush is_open

abbrev pub after_prepare : Bytes → Bool → Result IoError (Unit {0}) × Disk → Rewritten
after_prepare path is_open (err e, d) = (err e, is_open, d)
after_prepare path is_open (ok u, d) =
    after_replace path (replace_aof_file path (rewrite_temp_path path) (rewrite_backup_path path) d)

-- `AofEngine::rewrite`
unfoldable pub rewrite : Bytes → Option ℕ → DbSnapshot → Bool → Disk → Rewritten
unfolding prepare replace_aof_file rewrite_backup_path open_append
rewrite path unix snapshot is_open d =
    after_prepare path is_open (prepare path unix snapshot is_open d)

abbrev pub after_size :
    Bytes
    → Clock
    → ℕ
    → Bool
    → ShardedDatabase
    → Result IoError ℕ × Disk
    → Rewritten × ShardedDatabase
after_size path c min_size is_open db (err e, d) = ((err e, is_open, d), db)
after_size path c min_size is_open db (ok size, d) =
    if ltb size min_size
    then ((ok tt, is_open, d), db)
    else let (snapshot, db') = snapshot_entries c db in
      (rewrite path c.unix snapshot is_open d, db')

-- `maybe_rewrite_aof`, behind its barrier no write command runs.
unfoldable pub maybe_rewrite_aof :
    Bytes → Clock → ℕ → Bool → ShardedDatabase → Disk → Rewritten × ShardedDatabase
unfolding file_size rewrite snapshot_entries
maybe_rewrite_aof path c min_size is_open db d =
    after_size path c min_size is_open db (file_size path d)
