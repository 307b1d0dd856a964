-- ===== src/Server/Aof/Rewrite/Succeeds.antt =====
-- A rewrite succeeds if no call fails.
use rustkv_lab.Prelude.{
  ℕ, ◌≡◌, refl, sym, ◌∙◌, subst, Bool, true, false, Option, none, some, [], arith, Bytes, bytes_eq,
  Result, ok, err,
}
use rustkv_lab.Core.HashMap.{Map, lookup, insert, remove}
use rustkv_lab.Core.HashMap.Laws.{lookup-insert, lookup-remove}
use rustkv_lab.Core.Sharded.{DbSnapshot}
use rustkv_lab.Server.Disk.{
  Disk, IoError, then_do, done, if_found, move, open_append, rename, if_missing,
}
use rustkv_lab.Server.Aof.Rewrite.{
  or_missing, remove_file_if_exists, rename_file_if_exists, after_swap, replace_aof_file, prepare,
  after_replace, after_prepare, Rewritten, rewrite, rewrite_temp_path, rewrite_backup_path,
}
use rustkv_lab.Server.Aof.Rewrite.Stays
use rustkv_lab.Server.Aof.Rewrite.Written.{entries_bytes, Writes}
use rustkv_lab.Server.Aof.Rewrite.Installed.{Installs, rewrite-Installs}
use rustkv_lab.Server.Aof.Rewrite.Done.{prepare-Writes, lengths_ne, length-temp, length-backup}
use rustkv_lab.Server.Aof.Rewrite.Prepared.{
  Succeeds, quiet, then_do-Succeeds, remove-Succeeds, prepare-Succeeds,
}

module _ (path temp backup new : Bytes) (backup-temp : bytes_eq backup temp ≡ false)
    (path-temp : bytes_eq path temp ≡ false) where
  abbrev Ready : Map Bytes → Type 0
  Ready files = lookup temp files ≡ some new

  swap-Succeeds :
      (backed_up : Bool) (files : Map Bytes)
      → Ready files
      → Succeeds (after_swap path backup backed_up (rename temp path (quiet files)))
  unfolding rename
  swap-Succeeds true files h = rw h (remove-Succeeds backup (insert path new (remove temp files)))
  swap-Succeeds false files h = rw h refl

  backed :
      (o : Option Bytes) (files : Map Bytes)
      → Succeeds (
          or_missing false (then_do (λ _. done true) (if_found (move path backup) o (quiet files))))
  backed none files = refl
  backed (some bytes) files = refl

  backed-Ready :
      (o : Option Bytes) (files : Map Bytes)
      → Ready files
      → Ready
          (or_missing false
            (then_do (λ _. done true) (if_found (move path backup) o (quiet files)))).1.files
  backed-Ready none files h = h
  backed-Ready (some bytes) files h =
      rw
        (
          lookup-insert backup temp bytes (remove path files),
          backup-temp,
          lookup-remove path temp files,
          path-temp,
        )
        h

  backup-Succeeds :
      (files : Map Bytes)
      → Ready files
      → Succeeds (
          then_do
            (λ backed_up d. after_swap path backup backed_up (rename temp path d))
            (rename_file_if_exists path backup (quiet files)))
  unfolding rename_file_if_exists rename
  backup-Succeeds files h =
      then_do-Succeeds Ready (λ backed_up d. after_swap path backup backed_up (rename temp path d))
        _ (backed (lookup path files) files) (backed-Ready (lookup path files) files h)
        swap-Succeeds

  clean-Succeeds :
      (r : Result IoError (Unit {0}) × Disk)
      → Succeeds r
      → Ready r.1.files
      → Succeeds (
          then_do
            (λ backed_up d. after_swap path backup backed_up (rename temp path d))
            (then_do (λ _. rename_file_if_exists path backup) r))
  clean-Succeeds (ok u, d) h t =
      subst
        (λ faults. Succeeds (
          then_do (λ backed_up d. after_swap path backup backed_up (rename temp path d))
            (rename_file_if_exists path backup (record { files = d.files; faults = faults }))))
        (sym h) (backup-Succeeds d.files t)
  clean-Succeeds (err e, d) h t = elim h [ ]

  replace-Succeeds :
      (d : Disk) → d.faults ≡ [] → Ready d.files → Succeeds (replace_aof_file path temp backup d)
  unfolding replace_aof_file
  replace-Succeeds d h t =
      clean-Succeeds (remove_file_if_exists backup d)
        (subst
          (λ faults.
            Succeeds (remove_file_if_exists backup (record { files = d.files; faults = faults })))
          (sym h) (remove-Succeeds backup d.files))
        (Stays.remove_file_if_exists-Stays temp backup backup-temp d ∙ t)

created :
    (path : Bytes) (o : Option Bytes) (files : Map Bytes)
    → (if_missing path o (quiet files)).0 ≡ ok tt
created path none files = refl
created path (some bytes) files = refl

open-Succeeds : (path : Bytes) (d : Disk) → d.faults ≡ [] → (open_append path d).0 ≡ ok tt
unfolding open_append
open-Succeeds path d h = rw h (created path (lookup path d.files) d.files)

replaced-ok :
    (path : Bytes) (r : Result IoError (Unit {0}) × Disk)
    → Succeeds r
    → (after_replace path r).0 ≡ ok tt
replaced-ok path (ok u, d) h = rw (open-Succeeds path d h) refl
replaced-ok path (err e, d) h = elim h [ ]

module _ (path : Bytes) (unix : Option ℕ) (snapshot : DbSnapshot) where
  prepared-ok :
      (is_open : Bool) (r : Result IoError (Unit {0}) × Disk)
      → Succeeds r
      → Writes (rewrite_temp_path path) (entries_bytes unix snapshot.entries) r
      → (after_prepare path is_open r).0 ≡ ok tt
  prepared-ok is_open (ok u, d) h t =
      let temp = rewrite_temp_path path in
      let backup = rewrite_backup_path path in
      replaced-ok path (replace_aof_file path temp backup d) (
        replace-Succeeds path temp backup (entries_bytes unix snapshot.entries)
          (lengths_ne backup temp (λ e. omega (arith, e, length-backup path, length-temp path)))
          (lengths_ne path temp (λ e. omega (arith, e, length-temp path))) d h t)
  prepared-ok is_open (err e, d) h t = elim h [ ]

  rewrite-ok : (files : Map Bytes) → (rewrite path unix snapshot true (quiet files)).0 ≡ ok tt
  unfolding rewrite
  rewrite-ok files =
      prepared-ok true (prepare path unix snapshot true (quiet files))
        (prepare-Succeeds path unix snapshot files)
        (prepare-Writes path [] unix snapshot true (quiet files))

  installed :
      (bytes : Bytes) (r : Rewritten)
      → Installs path bytes r
      → r.0 ≡ ok tt
      → (r.1 ≡ true) × (lookup path r.2.files ≡ some bytes)
  installed bytes (ok u, is_open, d) h e = h
  installed bytes (err x, is_open, d) h e = absurd (ground (arith, e))

  pub rewrite-installs :
      (d : Disk)
      → d.faults ≡ []
      → ((rewrite path unix snapshot true d).0 ≡ ok tt)
        × ((rewrite path unix snapshot true d).1 ≡ true)
        × (lookup path (rewrite path unix snapshot true d).2.files
            ≡ some (entries_bytes unix snapshot.entries))
  rewrite-installs d h =
      let r = rewrite path unix snapshot true d in
      let fine : r.0 ≡ ok tt =
        subst
          (λ faults.
            (rewrite path unix snapshot true (record { files = d.files; faults = faults })).0
            ≡ ok tt)
          (sym h) (rewrite-ok d.files) in
      let (is_open, bytes) =
        installed (entries_bytes unix snapshot.entries) r
          (rewrite-Installs path unix snapshot true d) fine in
      (fine, is_open, bytes)
