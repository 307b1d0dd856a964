-- ===== src/Server/Disk.antt =====
-- The files of the server, as far as `aof.rs` uses them through tokio's `fs`. A call of the operating
-- system fails where `faults` says so: each call takes the first, and none fails when the list is
-- used up. A write that fails has written a part; any other call that fails has done nothing.
use rustkv_lab.Prelude.{
  ℕ, Option, none, some, List, [], ◌∷◌, ◌++◌, Bytes, length, take, Result, ok, err,
}
use rustkv_lab.Core.HashMap.{Map, lookup, insert, remove}

-- A write that fails gives an error after a part of the bytes was written.
pub record Fault : Type 0 where
  pub message : Bytes
  pub written : ℕ

pub record Disk : Type 0 where
  pub files : Map Bytes
  pub faults : List (Option Fault)

pub data IoError : Type 0 where
  not_found : IoError
  other : Bytes → IoError

abbrev pub Io {ℓ} : Type ℓ → Type ℓ
Io A = Disk → Result IoError A × Disk

abbrev pub then_do {ℓ κ} :
    {A : Type ℓ} {B : Type κ} → (A → Io B) → Result IoError A × Disk → Result IoError B × Disk
then_do f (ok a, d) = f a d
then_do f (err e, d) = (err e, d)

infixl 5 ◌>>=◌ ◌>>◌
abbrev pub ◌>>=◌ {ℓ κ} : {A : Type ℓ} {B : Type κ} → Io A → (A → Io B) → Io B
(m >>= f) d = then_do f (m d)

abbrev pub ◌>>◌ {ℓ κ} : {A : Type ℓ} {B : Type κ} → Io A → Io B → Io B
m >> k = m >>= λ _. k

abbrev pub done {ℓ} : {A : Type ℓ} → A → Io A
done a d = (ok a, d)

-- A call, with what it does if it does not fail.
abbrev pub unless_fault {ℓ} :
    {A : Type ℓ} → Io A → Map Bytes → List (Option Fault) → Result IoError A × Disk
unless_fault act files [] = act (record { files = files; faults = [] })
unless_fault act files (none ∷ faults) = act (record { files = files; faults = faults })
unless_fault act files (some fault ∷ faults) =
    (err (other fault.message), record { files = files; faults = faults })

abbrev pub call {ℓ} : {A : Type ℓ} → Io A → Io A
call act d = unless_fault act d.files d.faults

abbrev pub put : Bytes → Bytes → Io (Unit {0})
put path bytes d = (ok tt, record d { files = insert path bytes d.files })

abbrev pub if_found {ℓ} : {A : Type ℓ} → (Bytes → Io A) → Option Bytes → Io A
if_found act none d = (err not_found, d)
if_found act (some bytes) d = act bytes d

abbrev pub delete : Bytes → Bytes → Io (Unit {0})
delete path bytes d = (ok tt, record d { files = remove path d.files })

abbrev pub delete_file : Bytes → Io (Unit {0})
delete_file path d = if_found (delete path) (lookup path d.files) d

-- `fs::remove_file`
unfoldable pub remove_file : Bytes → Io (Unit {0})
remove_file path = call (delete_file path)

abbrev pub move : Bytes → Bytes → Bytes → Io (Unit {0})
move from to bytes d = (ok tt, record d { files = insert to bytes (remove from d.files) })

abbrev pub move_file : Bytes → Bytes → Io (Unit {0})
move_file from to d = if_found (move from to) (lookup from d.files) d

-- `fs::rename`, between two different paths.
unfoldable pub rename : Bytes → Bytes → Io (Unit {0})
rename from to = call (move_file from to)

abbrev pub if_missing : Bytes → Option Bytes → Io (Unit {0})
if_missing path none d = put path [] d
if_missing path (some bytes) d = (ok tt, d)

abbrev pub create_file : Bytes → Io (Unit {0})
create_file path d = if_missing path (lookup path d.files) d

-- `OpenOptions::new().create(true).append(true).open(path)`
unfoldable pub open_append : Bytes → Io (Unit {0})
open_append path = call (create_file path)

-- `OpenOptions::new().create(true).write(true).truncate(true).open(path)`
unfoldable pub open_truncate : Bytes → Io (Unit {0})
open_truncate path = call (put path [])

abbrev pub contents : Bytes → Map Bytes → Bytes
contents path files = elim (lookup path files) [ none ↦ [] | some bytes ↦ bytes ]

abbrev pub write_through :
    Bytes → Bytes → Map Bytes → List (Option Fault) → Result IoError (Unit {0}) × Disk
write_through path bytes files [] =
    (ok tt, record { files = insert path (contents path files ++ bytes) files; faults = [] })
write_through path bytes files (none ∷ faults) =
    (ok tt, record { files = insert path (contents path files ++ bytes) files; faults = faults })
write_through path bytes files (some fault ∷ faults) = (
  err (other fault.message),
  record {
    files = insert path (contents path files ++ take fault.written bytes) files;
    faults = faults;
  },
)

-- `write_all` on a file that is open and was written at its end.
unfoldable pub write_all : Bytes → Bytes → Io (Unit {0})
write_all path bytes d = write_through path bytes d.files d.faults

-- `flush` and `sync_all`: what was written is on the disk already.
unfoldable pub sync : Io (Unit {0})
sync = call (done tt)

-- The length of `fs::metadata`.
unfoldable pub metadata_len : Bytes → Io ℕ
metadata_len path = call (λ d. if_found (λ bytes. done (length bytes)) (lookup path d.files) d)
