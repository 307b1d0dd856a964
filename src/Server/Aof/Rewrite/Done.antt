-- ===== src/Server/Aof/Rewrite/Done.antt =====
-- What a rewrite leaves, whichever of its calls fail.
use rustkv_lab.Prelude.{
  ℕ, ◌≡◌, ◌≢◌, inl, inr, refl, sym, subst, ◌∙◌, ap, ◌+◌, Bool, false, Option, none, some, List, [],
  ◌∷◌, arith, Bytes, bytes_eq, bytes_eq_iff, Bool-cases, length, length-append, Result, ok, err,
}
use rustkv_lab.Text.{codes}
use rustkv_lab.Core.HashMap.{Map, lookup}
use rustkv_lab.Core.Sharded.{DbSnapshot}
use rustkv_lab.Server.Disk.{
  Fault, Disk, IoError, Io, then_do, ◌>>◌, unless_fault, open_append, if_missing, create_file,
}
use rustkv_lab.Server.Aof.Rewrite.{
  remove_file_if_exists, write_rewrite_file, flush, replace_aof_file, prepare, reopened,
  after_prepare, rewrite, rewrite_temp_path, rewrite_backup_path,
}
use rustkv_lab.Server.Aof.Rewrite.Stays
use rustkv_lab.Server.Aof.Rewrite.Stays.{Stays}
use rustkv_lab.Server.Aof.Rewrite.Safe.{Survives, replace_aof_file-Survives}
use rustkv_lab.Server.Aof.Rewrite.Written.{
  entries_bytes, Writes, then_do-Writes, write_rewrite_file-Writes, flush-Writes,
}

-- The paths of the temporary and of the backup file differ from the log's and from each other.
bytes_ne : (a b : Bytes) → a ≢ b → bytes_eq a b ≡ false
bytes_ne a b ne = elim (Bool-cases (bytes_eq a b)) [
  | inl e ↦ absurd (ne ((bytes_eq_iff a b).0 e))
  | inr e ↦ e
]

pub lengths_ne : (a b : Bytes) → length a ≢ length b → bytes_eq a b ≡ false
lengths_ne a b ne = bytes_ne a b (λ e. ne (ap length e))

pub length-temp : (path : Bytes) → length (rewrite_temp_path path) ≡ length path + 8
unfolding rewrite_temp_path
length-temp path = length-append path (codes ".rewrite")

pub length-backup : (path : Bytes) → length (rewrite_backup_path path) ≡ length path + 4
unfolding rewrite_backup_path
length-backup path = length-append path (codes ".bak")

module _ (path old : Bytes) (unix : Option ℕ) (snapshot : DbSnapshot) where
  abbrev new : Bytes
  new = entries_bytes unix snapshot.entries

  abbrev temp : Bytes
  temp = rewrite_temp_path path

  abbrev backup : Bytes
  backup = rewrite_backup_path path

  temp-path : bytes_eq temp path ≡ false
  temp-path = lengths_ne temp path (λ e. omega (arith, e, length-temp path))

  prepare-Stays : (is_open : Bool) → Stays path (prepare path unix snapshot is_open)
  unfolding prepare
  prepare-Stays is_open =
      let cleaned : Io (Unit {0}) = remove_file_if_exists temp in
      let filled : Io (Unit {0}) = cleaned >> write_rewrite_file unix temp snapshot in
      Stays.>>=-Stays path filled (λ _. flush is_open)
        (Stays.>>=-Stays path cleaned (λ _. write_rewrite_file unix temp snapshot)
          (Stays.remove_file_if_exists-Stays path temp temp-path)
          (λ _. Stays.write_rewrite_file-Stays path temp temp-path unix snapshot))
        (λ _. Stays.flush-Stays path is_open)

  then_do-done :
      (f : Unit {0} → Io (Unit {0})) (r : Result IoError (Unit {0}) × Disk)
      → ((d : Disk) → Writes temp new (f tt d))
      → Writes temp new (then_do f r)
  then_do-done f (ok u, d) h = h d
  then_do-done f (err e, d) h = tt

  pub prepare-Writes :
      (is_open : Bool) (d : Disk) → Writes temp new (prepare path unix snapshot is_open d)
  unfolding prepare
  prepare-Writes is_open d =
      then_do-Writes temp new new (λ _. flush is_open) _
        (then_do-done (λ _. write_rewrite_file unix temp snapshot) (remove_file_if_exists temp d)
          (write_rewrite_file-Writes temp unix snapshot))
        (λ d' h. flush-Writes temp is_open new d' h)

  if_missing-kept :
      (bytes : Bytes) (d : Disk)
      → lookup path d.files ≡ some bytes
      → lookup path (if_missing path (lookup path d.files) d).1.files ≡ some bytes
  if_missing-kept bytes d h = rw h h

  pub open_append-kept :
      (bytes : Bytes) (files : Map Bytes) (faults : List (Option Fault))
      → lookup path files ≡ some bytes
      → lookup path (unless_fault (create_file path) files faults).1.files ≡ some bytes
  open_append-kept bytes files [] h = if_missing-kept bytes _ h
  open_append-kept bytes files (none ∷ faults) h = if_missing-kept bytes _ h
  open_append-kept bytes files (some fault ∷ faults) h = h

  open_append-Survives :
      (d : Disk)
      → Survives path backup old new d
      → Survives path backup old new (open_append path d).1
  unfolding open_append
  open_append-Survives d (inl h) = inl (open_append-kept old d.files d.faults h)
  open_append-Survives d (inr (inl h)) = inr (inl (open_append-kept new d.files d.faults h))
  open_append-Survives d (inr (inr h)) = inr (
      inr (
        unfold open_append in
        (Stays.open_append-Stays backup path
            (lengths_ne path backup (λ e. omega (arith, e, length-backup path))) d
          ∙ h)))

  reopened-disk :
      (replaced : Result IoError (Unit {0})) (r : Result IoError (Unit {0}) × Disk)
      → (reopened replaced r).2 ≡ r.1
  reopened-disk replaced (ok u, d) = refl
  reopened-disk (ok u) (err e, d) = refl
  reopened-disk (err e) (err e', d) = refl

  after_prepare-Survives :
      (is_open : Bool) (r : Result IoError (Unit {0}) × Disk)
      → Writes temp new r
      → lookup path r.1.files ≡ some old
      → Survives path backup old new (after_prepare path is_open r).2
  after_prepare-Survives is_open (err e, d) t h = inl h
  after_prepare-Survives is_open (ok u, d) t h =
      let r = replace_aof_file path temp backup d in
      subst (Survives path backup old new) (sym (reopened-disk r.0 (open_append path r.1))) (
        open_append-Survives r.1 (
          replace_aof_file-Survives path temp backup old new temp-path
            (lengths_ne path temp (λ e. omega (arith, e, length-temp path)))
            (lengths_ne backup path (λ e. omega (arith, e, length-backup path)))
            (lengths_ne path backup (λ e. omega (arith, e, length-backup path)))
            (lengths_ne backup temp (λ e. omega (arith, e, length-backup path, length-temp path)))
            (lengths_ne temp backup (λ e. omega (arith, e, length-backup path, length-temp path))) d
            t h))

  -- A rewrite of a log that exists does not lose it, whichever calls of the disk fail: afterwards
  -- the log's file holds what it held or the snapshot's frames, or the backup file holds what the
  -- log held.
  pub rewrite-Survives :
      (is_open : Bool) (d : Disk)
      → lookup path d.files ≡ some old
      → Survives path
          (rewrite_backup_path path)
          old
          (entries_bytes unix snapshot.entries)
          (rewrite path unix snapshot is_open d).2
  unfolding rewrite
  rewrite-Survives is_open d h =
      after_prepare-Survives is_open (prepare path unix snapshot is_open d)
        (prepare-Writes is_open d) (prepare-Stays is_open d ∙ h)
