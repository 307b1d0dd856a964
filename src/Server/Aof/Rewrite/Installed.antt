-- ===== src/Server/Aof/Rewrite/Installed.antt =====
-- A rewrite that succeeds has put the snapshot in the log's place, and it succeeds if no call fails.
use rustkv_lab.Prelude.{
  ℕ, ◌≡◌, refl, sym, ◌∙◌, ap, Bool, true, false, Option, none, some, [], arith, Bytes, bytes_eq,
  bytes_eq_refl, Result, ok, err,
}
use rustkv_lab.Core.HashMap.{Map, lookup, remove}
use rustkv_lab.Core.HashMap.Laws.{lookup-insert, lookup-remove}
use rustkv_lab.Core.Sharded.{DbSnapshot}
use rustkv_lab.Server.Disk.{Disk, IoError, not_found, other, then_do, done, open_append, rename}
use rustkv_lab.Server.Aof.Rewrite.{
  or_missing, remove_file_if_exists, rename_file_if_exists, after_swap, replace_aof_file, prepare,
  reopened, after_replace, after_prepare, Rewritten, rewrite, rewrite_temp_path,
  rewrite_backup_path,
}
use rustkv_lab.Server.Aof.Rewrite.Stays
use rustkv_lab.Server.Aof.Rewrite.Safe.{Renames, rename-Renames}
use rustkv_lab.Server.Aof.Rewrite.Written.{entries_bytes, Writes}
use rustkv_lab.Server.Aof.Rewrite.Done.{
  prepare-Writes, lengths_ne, length-temp, length-backup, open_append-kept,
}

-- Where it succeeds, the rewrite has left the file open, with these bytes in it.
abbrev pub Installs : Bytes → Bytes → Rewritten → Type 0
Installs path bytes (ok u, is_open, d) = (is_open ≡ true) × (lookup path d.files ≡ some bytes)
Installs path bytes (err e, is_open, d) = Unit

module _ (path new : Bytes) where
  Writes-of :
      (r : Result IoError (Unit {0}) × Disk) → lookup path r.1.files ≡ some new → Writes path new r
  Writes-of (ok u, d) h = h
  Writes-of (err e, d) h = tt

  module _ (temp backup : Bytes) (backup-path : bytes_eq backup path ≡ false)
      (backup-temp : bytes_eq backup temp ≡ false) (path-temp : bytes_eq path temp ≡ false) where
    swap-Writes :
        (files : Map Bytes) (backed_up : Bool) (r : Result IoError (Unit {0}) × Disk)
        → lookup temp files ≡ some new
        → Renames temp path files r
        → Writes path new (after_swap path backup backed_up r)
    swap-Writes files true (ok u, d) t (bytes, found, e) =
        Writes-of (remove_file_if_exists backup d) (
          Stays.remove_file_if_exists-Stays path backup backup-path d
          ∙ (rw (e, lookup-insert path path bytes (remove temp files), bytes_eq_refl path)
              (sym found ∙ t)))
    swap-Writes files false (ok u, d) t (bytes, found, e) =
        rw (e, lookup-insert path path bytes (remove temp files), bytes_eq_refl path)
          (sym found ∙ t)
    swap-Writes files true (err x, d) t same = tt
    swap-Writes files false (err x, d) t same = tt

    backup-Writes :
        (files : Map Bytes) (r : Result IoError (Unit {0}) × Disk)
        → lookup temp files ≡ some new
        → Renames path backup files r
        → Writes path new (
            then_do
              (λ backed_up d. after_swap path backup backed_up (rename temp path d))
              (or_missing false (then_do (λ _. done true) r)))
    backup-Writes files (ok u, d) t (bytes, found, e) =
        swap-Writes d.files true (rename temp path d)
          (rw
            (
              e,
              lookup-insert backup temp bytes (remove path files),
              backup-temp,
              lookup-remove path temp files,
              path-temp,
            )
            t)
          (rename-Renames temp path d)
    backup-Writes files (err not_found, d) t same =
        swap-Writes d.files false (rename temp path d) (ap (lookup temp) same ∙ t)
          (rename-Renames temp path d)
    backup-Writes files (err (other message), d) t same = tt

    clean-Writes :
        (r : Result IoError (Unit {0}) × Disk)
        → lookup temp r.1.files ≡ some new
        → Writes path new (
            then_do
              (λ backed_up d. after_swap path backup backed_up (rename temp path d))
              (then_do (λ _. rename_file_if_exists path backup) r))
    unfolding rename_file_if_exists
    clean-Writes (ok u, d) t =
        backup-Writes d.files (rename path backup d) t (rename-Renames path backup d)
    clean-Writes (err e, d) t = tt

    replace-Writes :
        (d : Disk)
        → lookup temp d.files ≡ some new
        → Writes path new (replace_aof_file path temp backup d)
    unfolding replace_aof_file
    replace-Writes d t =
        clean-Writes (remove_file_if_exists backup d)
          (Stays.remove_file_if_exists-Stays temp backup backup-temp d ∙ t)

  reopened-Installs :
      (replaced : Result IoError (Unit {0})) (d : Disk) (r : Result IoError (Unit {0}) × Disk)
      → Writes path new (replaced, d)
      → (lookup path d.files ≡ some new → lookup path r.1.files ≡ some new)
      → Installs path new (reopened replaced r)
  reopened-Installs (ok u) d (ok u', d') h k = (refl, k h)
  reopened-Installs (err e) d (ok u', d') h k = tt
  reopened-Installs (ok u) d (err e, d') h k = tt
  reopened-Installs (err e) d (err e', d') h k = tt

  replaced-Installs :
      (r : Result IoError (Unit {0}) × Disk)
      → Writes path new r
      → Installs path new (after_replace path r)
  replaced-Installs (replaced, d) h = reopened-Installs replaced d (open_append path d) h (λ kept.
      unfold open_append in
      open_append-kept path path none (record { entries = []; key_count = 0; expired_count = 0 })
        new d.files d.faults kept)

module _ (path : Bytes) (unix : Option ℕ) (snapshot : DbSnapshot) where
  abbrev new_log : Bytes
  new_log = entries_bytes unix snapshot.entries

  prepared-Installs :
      (is_open : Bool) (r : Result IoError (Unit {0}) × Disk)
      → Writes (rewrite_temp_path path) new_log r
      → Installs path new_log (after_prepare path is_open r)
  prepared-Installs is_open (err e, d) t = tt
  prepared-Installs is_open (ok u, d) t =
      let temp = rewrite_temp_path path in
      let backup = rewrite_backup_path path in
      replaced-Installs path new_log (replace_aof_file path temp backup d) (
        replace-Writes path new_log temp backup
          (lengths_ne backup path (λ e. omega (arith, e, length-backup path)))
          (lengths_ne backup temp (λ e. omega (arith, e, length-backup path, length-temp path)))
          (lengths_ne path temp (λ e. omega (arith, e, length-temp path))) d t)

  -- A rewrite that answers success, whichever calls of the disk fail, has left the log's file open,
  -- and the snapshot's frames in it.
  pub rewrite-Installs :
      (is_open : Bool) (d : Disk) → Installs path new_log (rewrite path unix snapshot is_open d)
  unfolding rewrite
  rewrite-Installs is_open d =
      prepared-Installs is_open (prepare path unix snapshot is_open d)
        (prepare-Writes path [] unix snapshot is_open d)
