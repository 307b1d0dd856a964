-- ===== src/Server/Aof/Rewrite/Safe.antt =====
-- A rewrite does not lose the log, whichever of its calls fail.
use rustkv_lab.Prelude.{
  ◌≡◌, ◌⊎◌, inl, inr, refl, sym, ◌∙◌, ap, Bool, true, false, Option, none, some, List, [], ◌∷◌,
  Bytes, bytes_eq, bytes_eq_refl, if◌then◌else◌, Result, ok, err,
}
use rustkv_lab.Core.HashMap.{Map, lookup, insert, remove}
use rustkv_lab.Core.HashMap.Laws.{lookup-insert, lookup-remove}
use rustkv_lab.Server.Disk.{
  Fault, Disk, IoError, not_found, other, then_do, done, unless_fault, if_found, move, move_file,
  rename,
}
use rustkv_lab.Server.Aof.Rewrite.{
  or_missing, remove_file_if_exists, rename_file_if_exists, after_swap, replace_aof_file,
}
use rustkv_lab.Server.Aof.Rewrite.Stays

-- What a rename did.
abbrev pub Renames : Bytes → Bytes → Map Bytes → Result IoError (Unit {0}) × Disk → Type 0
Renames from to files (ok u, d) =
    (bytes : Bytes) × (lookup from files ≡ some bytes)
    × (d.files ≡ insert to bytes (remove from files))
Renames from to files (err e, d) = d.files ≡ files

move-Renames :
    (from to : Bytes) (o : Option Bytes) (d : Disk)
    → lookup from d.files ≡ o
    → Renames from to d.files (if_found (move from to) o d)
move-Renames from to none d e = refl
move-Renames from to (some bytes) d e = (bytes, e, refl)

call-Renames :
    (from to : Bytes) (files : Map Bytes) (faults : List (Option Fault))
    → Renames from to files (unless_fault (move_file from to) files faults)
call-Renames from to files [] = move-Renames from to (lookup from files) _ refl
call-Renames from to files (none ∷ faults) = move-Renames from to (lookup from files) _ refl
call-Renames from to files (some fault ∷ faults) = refl

pub rename-Renames : (from to : Bytes) (d : Disk) → Renames from to d.files (rename from to d)
unfolding rename
rename-Renames from to d = call-Renames from to d.files d.faults

-- The log's contents as they were, or the snapshot's, stand in the log's file, or the contents as
-- they were in the backup file.
abbrev pub Survives : Bytes → Bytes → Bytes → Bytes → Disk → Type 0
Survives path backup old new d =
    (lookup path d.files ≡ some old)
    ⊎ ((lookup path d.files ≡ some new) ⊎ (lookup backup d.files ≡ some old))

module _ (path temp backup old new : Bytes) (temp-path : bytes_eq temp path ≡ false)
    (path-temp : bytes_eq path temp ≡ false) (backup-path : bytes_eq backup path ≡ false)
    (path-backup : bytes_eq path backup ≡ false) (backup-temp : bytes_eq backup temp ≡ false)
    (temp-backup : bytes_eq temp backup ≡ false) where
  abbrev Safe : Disk → Type 0
  Safe = Survives path backup old new

  moved_here :
      (from : Bytes) (bytes : Bytes) (files : Map Bytes) (to : Bytes)
      → lookup to (insert to bytes (remove from files)) ≡ some bytes
  moved_here from bytes files to =
      rw (lookup-insert to to bytes (remove from files), bytes_eq_refl to) refl

  undone :
      (files : Map Bytes) (r : Result IoError (Unit {0}) × Disk)
      → lookup backup files ≡ some old
      → Renames backup path files r
      → Safe r.1
  undone files (ok u, d) h (bytes, found, e) =
      inl (rw e (moved_here backup bytes files path ∙ sym found ∙ h))
  undone files (err e, d) h same = inr (inr (ap (lookup backup) same ∙ h))

  swapped :
      (files : Map Bytes) (backed_up : Bool) (r : Result IoError (Unit {0}) × Disk)
      → lookup temp files ≡ some new
      → (if backed_up then (lookup backup files ≡ some old) else (lookup path files ≡ some old))
      → Renames temp path files r
      → Safe (after_swap path backup backed_up r).1
  swapped files true (ok u, d) t h (bytes, found, e) = inr (
      inl (
        Stays.remove_file_if_exists-Stays path backup backup-path d
        ∙ (rw e (moved_here temp bytes files path ∙ sym found ∙ t))))
  swapped files false (ok u, d) t h (bytes, found, e) =
      inr (inl (rw e (moved_here temp bytes files path ∙ sym found ∙ t)))
  swapped files true (err x, d) t h same =
      undone d.files (rename backup path d) (ap (lookup backup) same ∙ h)
        (rename-Renames backup path d)
  swapped files false (err x, d) t h same = inl (ap (lookup path) same ∙ h)

  after_backup :
      (files : Map Bytes) (r : Result IoError (Unit {0}) × Disk)
      → lookup temp files ≡ some new
      → lookup path files ≡ some old
      → Renames path backup files r
      → Safe
          (then_do
            (λ backed_up d. after_swap path backup backed_up (rename temp path d))
            (or_missing false (then_do (λ _. done true) r))).1
  after_backup files (ok u, d) t h (bytes, found, e) =
      swapped d.files true (rename temp path d)
        (rw
          (
            e,
            lookup-insert backup temp bytes (remove path files),
            backup-temp,
            lookup-remove path temp files,
            path-temp,
          )
          t)
        (rw e (moved_here path bytes files backup ∙ sym found ∙ h)) (rename-Renames temp path d)
  after_backup files (err not_found, d) t h same =
      swapped d.files false (rename temp path d) (ap (lookup temp) same ∙ t)
        (ap (lookup path) same ∙ h) (rename-Renames temp path d)
  after_backup files (err (other message), d) t h same = inl (ap (lookup path) same ∙ h)

  after_clean :
      (r : Result IoError (Unit {0}) × Disk)
      → lookup temp r.1.files ≡ some new
      → lookup path r.1.files ≡ some old
      → Safe
          (then_do
            (λ backed_up d. after_swap path backup backed_up (rename temp path d))
            (then_do (λ _. rename_file_if_exists path backup) r)).1
  unfolding rename_file_if_exists
  after_clean (ok u, d) t h =
      after_backup d.files (rename path backup d) t h (rename-Renames path backup d)
  after_clean (err e, d) t h = inl h

  pub replace_aof_file-Survives :
      (d : Disk)
      → lookup temp d.files ≡ some new
      → lookup path d.files ≡ some old
      → Safe (replace_aof_file path temp backup d).1
  unfolding replace_aof_file
  replace_aof_file-Survives d t h =
      after_clean (remove_file_if_exists backup d)
        (Stays.remove_file_if_exists-Stays temp backup backup-temp d ∙ t)
        (Stays.remove_file_if_exists-Stays path backup backup-path d ∙ h)
