-- ===== src/Server/Aof/Rewrite/Stays.antt =====
-- A call changes no file but those that it names, whether it fails or not.
use rustkv_lab.Prelude.{
  ℕ, ◌≡◌, refl, ◌∙◌, ap, Bool, true, false, Option, none, some, List, [], ◌∷◌, Bytes, bytes_eq,
  Result, ok, err,
}
use rustkv_lab.Core.HashMap.{Map, lookup}
use rustkv_lab.Core.HashMap.Laws.{lookup-insert, lookup-remove}
use rustkv_lab.Core.Sharded.{DbSnapshot, DbSnapshotEntry}
use rustkv_lab.Server.Disk.{
  Fault, Disk, IoError, not_found, other, Io, then_do, ◌>>=◌, ◌>>◌, done, unless_fault, if_found,
  delete, delete_file, create_file, if_missing, put, write_through, remove_file, open_append,
  open_truncate, write_all, sync,
}
use rustkv_lab.Server.Aof.Rewrite.{
  or_missing, remove_file_if_exists, entry_bytes, write_entries, write_rewrite_file, flush,
}

abbrev pub Stays : {A : Type 0} → Bytes → Io A → Type 0
Stays p m = (d : Disk) → lookup p (m d).1.files ≡ lookup p d.files

module _ (p : Bytes) where
  then_do-Stays :
      {A B : Type 0} (f : A → Io B) (r : Result IoError A × Disk)
      → ((a : A) → Stays p (f a))
      → lookup p (then_do f r).1.files ≡ lookup p r.1.files
  then_do-Stays f (ok a, d) h = h a d
  then_do-Stays f (err e, d) h = refl

  pub >>=-Stays :
      {A B : Type 0} (m : Io A) (f : A → Io B)
      → Stays p m
      → ((a : A) → Stays p (f a))
      → Stays p (m >>= f)
  >>=-Stays m f h k d = then_do-Stays f (m d) k ∙ h d

  call-Stays :
      {A : Type 0} (act : Io A) (files : Map Bytes) (faults : List (Option Fault))
      → Stays p act
      → lookup p (unless_fault act files faults).1.files ≡ lookup p files
  call-Stays act files [] h = h _
  call-Stays act files (none ∷ faults) h = h _
  call-Stays act files (some fault ∷ faults) h = refl

  if_found-Stays :
      {A : Type 0} (act : Bytes → Io A) (o : Option Bytes)
      → ((bytes : Bytes) → Stays p (act bytes))
      → Stays p (if_found act o)
  if_found-Stays act none h d = refl
  if_found-Stays act (some bytes) h d = h bytes d

  or_missing-Stays : {A : Type 0} (a : A) (r : Result IoError A × Disk) → (or_missing a r).1 ≡ r.1
  or_missing-Stays a (ok b, d) = refl
  or_missing-Stays a (err not_found, d) = refl
  or_missing-Stays a (err (other message), d) = refl

  pub sync-Stays : Stays p sync
  unfolding sync
  sync-Stays d = call-Stays (done tt) d.files d.faults (λ d'. refl)

  pub flush-Stays : (is_open : Bool) → Stays p (flush is_open)
  unfolding flush
  flush-Stays true d = >>=-Stays sync (λ _. sync) sync-Stays (λ _. sync-Stays) d
  flush-Stays false d = refl

  module _ (path : Bytes) (ne : bytes_eq path p ≡ false) where
    put-Stays : (bytes : Bytes) → Stays p (put path bytes)
    put-Stays bytes d = rw (lookup-insert path p bytes d.files, ne) refl

    delete-Stays : (bytes : Bytes) → Stays p (delete path bytes)
    delete-Stays bytes d = rw (lookup-remove path p d.files, ne) refl

    pub remove_file-Stays : Stays p (remove_file path)
    unfolding remove_file
    remove_file-Stays d =
        call-Stays (delete_file path) d.files d.faults
          (λ d'. if_found-Stays (delete path) (lookup path d'.files) delete-Stays d')

    pub remove_file_if_exists-Stays : Stays p (remove_file_if_exists path)
    unfolding remove_file_if_exists
    remove_file_if_exists-Stays d =
        ap (λ d'. lookup p d'.files) (or_missing-Stays tt (remove_file path d))
        ∙ remove_file-Stays d

    pub open_truncate-Stays : Stays p (open_truncate path)
    unfolding open_truncate
    open_truncate-Stays d = call-Stays (put path []) d.files d.faults (put-Stays [])

    if_missing-Stays : (o : Option Bytes) → Stays p (if_missing path o)
    if_missing-Stays none d = put-Stays [] d
    if_missing-Stays (some bytes) d = refl

    pub open_append-Stays : Stays p (open_append path)
    unfolding open_append
    open_append-Stays d =
        call-Stays (create_file path) d.files d.faults
          (λ d'. if_missing-Stays (lookup path d'.files) d')

    write_through-Stays :
        (bytes : Bytes) (files : Map Bytes) (faults : List (Option Fault))
        → lookup p (write_through path bytes files faults).1.files ≡ lookup p files
    write_through-Stays bytes files [] = put-Stays _ (record { files = files; faults = [] })
    write_through-Stays bytes files (none ∷ faults) =
        put-Stays _ (record { files = files; faults = [] })
    write_through-Stays bytes files (some fault ∷ faults) =
        put-Stays _ (record { files = files; faults = [] })

    pub write_entries-Stays :
        (unix : Option ℕ) (entries : List DbSnapshotEntry)
        → Stays p (write_entries unix path entries)
    unfolding write_entries write_all
    write_entries-Stays unix [] d = refl
    write_entries-Stays unix (entry ∷ entries) d =
        >>=-Stays (write_all path (entry_bytes unix entry)) (λ _. write_entries unix path entries)
          (λ d'. write_through-Stays (entry_bytes unix entry) d'.files d'.faults)
          (λ _. write_entries-Stays unix entries) d

    pub write_rewrite_file-Stays :
        (unix : Option ℕ) (snapshot : DbSnapshot) → Stays p (write_rewrite_file unix path snapshot)
    unfolding write_rewrite_file
    write_rewrite_file-Stays unix snapshot =
        let filled : Io (Unit {0}) =
          open_truncate path >> write_entries unix path snapshot.entries in
        let flushed : Io (Unit {0}) = filled >> sync in
        >>=-Stays flushed (λ _. sync)
          (>>=-Stays filled (λ _. sync)
            (>>=-Stays (open_truncate path) (λ _. write_entries unix path snapshot.entries)
              open_truncate-Stays (λ _. write_entries-Stays unix snapshot.entries))
            (λ _. sync-Stays))
          (λ _. sync-Stays)
