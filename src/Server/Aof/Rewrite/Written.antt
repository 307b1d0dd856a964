-- ===== src/Server/Aof/Rewrite/Written.antt =====
-- What a rewrite writes to its temporary file, if no call fails.
use rustkv_lab.Prelude.{
  ℕ, ◌≡◌, refl, sym, ◌∙◌, ap, Bool, true, false, Option, none, some, List, [], ◌∷◌, ◌++◌,
  append_assoc, append-nil, Bytes, bytes_eq_refl, Result, ok, err,
}
use rustkv_lab.Core.HashMap.{Map, lookup}
use rustkv_lab.Core.HashMap.Laws.{lookup-insert}
use rustkv_lab.Core.Sharded.{DbSnapshot, DbSnapshotEntry}
use rustkv_lab.Server.Disk.{
  Fault, Disk, IoError, Io, then_do, done, unless_fault, put, contents, write_through,
  open_truncate, write_all, sync,
}
use rustkv_lab.Server.Aof.Rewrite.{entry_bytes, write_entries, write_rewrite_file, flush}

abbrev pub entries_bytes : Option ℕ → List DbSnapshotEntry → Bytes
entries_bytes unix [] = []
entries_bytes unix (entry ∷ entries) = entry_bytes unix entry ++ entries_bytes unix entries

-- Where it succeeds, a run leaves these bytes in the file.
abbrev pub Writes : Bytes → Bytes → Result IoError (Unit {0}) × Disk → Type 0
Writes path bytes (ok u, d) = lookup path d.files ≡ some bytes
Writes path bytes (err e, d) = Unit

module _ (path : Bytes) where
  pub then_do-Writes :
      (before after : Bytes) (f : Unit {0} → Io (Unit {0})) (r : Result IoError (Unit {0}) × Disk)
      → Writes path before r
      → ((d : Disk) → lookup path d.files ≡ some before → Writes path after (f tt d))
      → Writes path after (then_do f r)
  then_do-Writes before after f (ok u, d) h k = k d h
  then_do-Writes before after f (err e, d) h k = tt

  put-Writes : (bytes : Bytes) (d : Disk) → Writes path bytes (put path bytes d)
  put-Writes bytes d = rw (lookup-insert path path bytes d.files, bytes_eq_refl path) refl

  call-Writes :
      (bytes : Bytes) (act : Io (Unit {0})) (files : Map Bytes) (faults : List (Option Fault))
      → ((faults' : List (Option Fault))
          → Writes path bytes (act (record { files = files; faults = faults' })))
      → Writes path bytes (unless_fault act files faults)
  call-Writes bytes act files [] h = h []
  call-Writes bytes act files (none ∷ faults) h = h faults
  call-Writes bytes act files (some fault ∷ faults) h = tt

  open_truncate-Writes : (d : Disk) → Writes path [] (open_truncate path d)
  unfolding open_truncate
  open_truncate-Writes d =
      call-Writes [] (put path []) d.files d.faults
        (λ faults. put-Writes [] (record { files = d.files; faults = faults }))

  sync-Writes :
      (bytes : Bytes) (d : Disk) → lookup path d.files ≡ some bytes → Writes path bytes (sync d)
  unfolding sync
  sync-Writes bytes d h = call-Writes bytes (done tt) d.files d.faults (λ faults. h)

  contents_of :
      (before : Bytes) (files : Map Bytes)
      → lookup path files ≡ some before
      → contents path files ≡ before
  contents_of before files h = rw (contents, h) refl

  write_through-Writes :
      (before bytes : Bytes) (files : Map Bytes) (faults : List (Option Fault))
      → lookup path files ≡ some before
      → Writes path (before ++ bytes) (write_through path bytes files faults)
  write_through-Writes before bytes files [] h =
      put-Writes (contents path files ++ bytes) (record { files = files; faults = [] })
      ∙ ap (λ c. some (c ++ bytes)) (contents_of before files h)
  write_through-Writes before bytes files (none ∷ faults) h =
      put-Writes (contents path files ++ bytes) (record { files = files; faults = [] })
      ∙ ap (λ c. some (c ++ bytes)) (contents_of before files h)
  write_through-Writes before bytes files (some fault ∷ faults) h = tt

  write_entries-Writes :
      (unix : Option ℕ) (entries : List DbSnapshotEntry) (before : Bytes) (d : Disk)
      → lookup path d.files ≡ some before
      → Writes path (before ++ entries_bytes unix entries) (write_entries unix path entries d)
  unfolding write_entries write_all
  write_entries-Writes unix [] before d h = h ∙ ap some (sym (append-nil before))
  write_entries-Writes unix (entry ∷ entries) before d h =
      then_do-Writes (before ++ entry_bytes unix entry) _ (λ _. write_entries unix path entries)
        (write_all path (entry_bytes unix entry) d)
        (write_through-Writes before (entry_bytes unix entry) d.files d.faults h)
        (λ d' h'.
          rw (← append_assoc before (entry_bytes unix entry) (entries_bytes unix entries))
            (write_entries-Writes unix entries (before ++ entry_bytes unix entry) d' h'))

  pub write_rewrite_file-Writes :
      (unix : Option ℕ) (snapshot : DbSnapshot) (d : Disk)
      → Writes path (entries_bytes unix snapshot.entries) (write_rewrite_file unix path snapshot d)
  unfolding write_rewrite_file
  write_rewrite_file-Writes unix snapshot d =
      let bytes = entries_bytes unix snapshot.entries in
      let fill : Unit {0} → Io (Unit {0}) = λ _. write_entries unix path snapshot.entries in
      let again : Unit {0} → Io (Unit {0}) = λ _. sync in
      let filled : Result IoError (Unit {0}) × Disk = then_do fill (open_truncate path d) in
      then_do-Writes bytes bytes again (then_do again filled)
        (then_do-Writes bytes bytes again filled
          (then_do-Writes [] bytes fill (open_truncate path d) (open_truncate-Writes d)
            (λ d' h. write_entries-Writes unix snapshot.entries [] d' h))
          (λ d' h. sync-Writes bytes d' h))
        (λ d' h. sync-Writes bytes d' h)

  pub flush-Writes :
      (is_open : Bool) (bytes : Bytes) (d : Disk)
      → lookup path d.files ≡ some bytes
      → Writes path bytes (flush is_open d)
  unfolding flush
  flush-Writes true bytes d h =
      then_do-Writes bytes bytes (λ _. sync) (sync d) (sync-Writes bytes d h)
        (λ d' h'. sync-Writes bytes d' h')
  flush-Writes false bytes d h = tt
