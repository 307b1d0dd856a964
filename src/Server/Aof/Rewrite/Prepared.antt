-- ===== src/Server/Aof/Rewrite/Prepared.antt =====
-- Writing the snapshot to its temporary file succeeds if no call fails.
use rustkv_lab.Prelude.{
  ℕ, ◌≡◌, refl, sym, subst, true, Option, none, some, List, [], ◌∷◌, Bytes, Result, ok, err,
}
use rustkv_lab.Core.HashMap.{Map, lookup}
use rustkv_lab.Core.Sharded.{DbSnapshot, DbSnapshotEntry}
use rustkv_lab.Server.Disk.{
  Disk, IoError, Io, then_do, if_found, delete, open_truncate, write_all, sync, remove_file,
}
use rustkv_lab.Server.Aof.Rewrite.{
  or_missing, remove_file_if_exists, prepare, rewrite_temp_path, write_entries, write_rewrite_file,
  flush, entry_bytes,
}

-- No fault was there, and none is left.
abbrev pub Succeeds : {A : Type 0} → Result IoError A × Disk → Type 0
Succeeds (ok a, d) = d.faults ≡ []
Succeeds (err e, d) = ⊥

abbrev pub quiet : Map Bytes → Disk
quiet files = record { files = files; faults = [] }

pub then_do-Succeeds :
    {A B : Type 0} (P : Map Bytes → Type 0) (f : A → Io B) (r : Result IoError A × Disk)
    → Succeeds r
    → P r.1.files
    → ((a : A) (files : Map Bytes) → P files → Succeeds (f a (quiet files)))
    → Succeeds (then_do f r)
then_do-Succeeds P f (ok a, d) h p k =
    subst (λ faults. Succeeds (f a (record { files = d.files; faults = faults }))) (sym h)
      (k a d.files p)
then_do-Succeeds P f (err e, d) h p k = elim h [ ]

abbrev pub Any : Map Bytes → Type 0
Any files = Unit

pub sync-Succeeds : (files : Map Bytes) → Succeeds (sync (quiet files))
unfolding sync
sync-Succeeds files = refl

pub removed :
    (path : Bytes) (o : Option Bytes) (files : Map Bytes)
    → Succeeds (or_missing tt (if_found (delete path) o (quiet files)))
removed path none files = refl
removed path (some bytes) files = refl

pub remove-Succeeds :
    (path : Bytes) (files : Map Bytes) → Succeeds (remove_file_if_exists path (quiet files))
unfolding remove_file_if_exists remove_file
remove-Succeeds path files = removed path (lookup path files) files

pub entries-Succeeds :
    (unix : Option ℕ) (path : Bytes) (entries : List DbSnapshotEntry) (files : Map Bytes)
    → Succeeds (write_entries unix path entries (quiet files))
unfolding write_entries write_all
entries-Succeeds unix path [] files = refl
entries-Succeeds unix path (entry ∷ entries) files =
    then_do-Succeeds Any (λ _. write_entries unix path entries)
      (write_all path (entry_bytes unix entry) (quiet files)) refl tt
      (λ u files' p. entries-Succeeds unix path entries files')

pub file-Succeeds :
    (unix : Option ℕ) (path : Bytes) (snapshot : DbSnapshot) (files : Map Bytes)
    → Succeeds (write_rewrite_file unix path snapshot (quiet files))
unfolding write_rewrite_file open_truncate
file-Succeeds unix path snapshot files =
    let again : Unit {0} → Io (Unit {0}) = λ _. sync in
    then_do-Succeeds Any again _
      (then_do-Succeeds Any again _ (entries-Succeeds unix path snapshot.entries _) tt
        (λ u files' p. sync-Succeeds files'))
      tt (λ u files' p. sync-Succeeds files')

pub flush-Succeeds : (files : Map Bytes) → Succeeds (flush true (quiet files))
unfolding flush
flush-Succeeds files =
    then_do-Succeeds Any (λ _. sync) (sync (quiet files)) (sync-Succeeds files) tt
      (λ u files' p. sync-Succeeds files')

pub prepare-Succeeds :
    (path : Bytes) (unix : Option ℕ) (snapshot : DbSnapshot) (files : Map Bytes)
    → Succeeds (prepare path unix snapshot true (quiet files))
unfolding prepare
prepare-Succeeds path unix snapshot files =
    let temp = rewrite_temp_path path in
    then_do-Succeeds Any (λ _. flush true) _
      (then_do-Succeeds Any (λ _. write_rewrite_file unix temp snapshot)
        (remove_file_if_exists temp (quiet files)) (remove-Succeeds temp files) tt
        (λ u files' p. file-Succeeds unix temp snapshot files'))
      tt (λ u files' p. flush-Succeeds files')
