-- ===== src/Core/Sharded/Entries.antt =====
-- What the entries of a snapshot are: under each key the entry that is visible, as the snapshot
-- writes it down.
mod Keyed
use rustkv_lab.Prelude.{
  ℕ, zero, suc, ◌+◌, ◌%◌, ◌<◌, ◌≡◌, ◌⊎◌, refl, sym, ◌∙◌, ap, Option, none, some, List, [], ◌∷◌,
  ◌++◌, append_assoc, append-nil, map, arith, Bytes, bytes_eq, bytes_eq_iff, if◌then◌else◌, length,
  get_or, All, inl, inr, Bool-cases, ◌==◌,
}
use rustkv_lab.Core.HashMap.{Map, lookup, retain}
use rustkv_lab.Core.HashMap.Laws.{IsUnique, keep_if, lookup-retain, retain-IsUnique}
use rustkv_lab.Core.Sort.{insert_sorted, sort_by}
use rustkv_lab.Core.Time.{Clock, current_unix_ms}
use rustkv_lab.Core.Entry.{Entry, is_expired}
use rustkv_lab.Core.Database.{Database}
use rustkv_lab.Core.Database.View.{live}
use rustkv_lab.Core.Sharded.{
  ShardedDatabase, DbSnapshotEntry, before_deadline, snapshot_entry, snapshot_loop,
  snapshot_entries,
}
use rustkv_lab.Core.Sharded.Step.{shard_for_key}
use rustkv_lab.Core.Sharded.Valid.{IsValid, ArePlaced}
use rustkv_lab.Core.Sharded.View.{visible, find}
use rustkv_lab.Core.Sharded.Entries.Keyed.{
  or_else, or_else-none, keyed-append, lookup-append, append-IsUnique, sort_by-IsSame,
}
pub use rustkv_lab.Core.Sharded.Entries.Keyed.{keyed}

-- An entry as the snapshot writes it.
abbrev pub noted : ℕ → ℕ → Bytes → Option Entry → Option DbSnapshotEntry
noted now unix_ms j none = none
noted now unix_ms j (some e) = some (snapshot_entry now unix_ms (j, e))

module _ (now unix_ms : ℕ) where
  abbrev notes : Database → List DbSnapshotEntry
  notes db = map (snapshot_entry now unix_ms) (retain (before_deadline now) db)

  lookup-noted :
      (j : Bytes) (m : Database)
      → lookup j (keyed (map (snapshot_entry now unix_ms) m)) ≡ noted now unix_ms j (lookup j m)
  unfolding lookup snapshot_entry
  lookup-noted j [] = refl
  lookup-noted j ((i, e) ∷ m) = elim (Bool-cases (bytes_eq i j)) [
    | inl q ↦ rw q (ap (λ k. some (snapshot_entry now unix_ms (k, e))) ((bytes_eq_iff i j).0 q))
    | inr q ↦ rw q (lookup-noted j m)
  ]

  noted-IsUnique :
      (m : Database) → IsUnique m → IsUnique (keyed (map (snapshot_entry now unix_ms) m))
  unfolding snapshot_entry
  noted-IsUnique [] u = tt
  noted-IsUnique ((i, e) ∷ m) u =
      (lookup-noted i m ∙ ap (noted now unix_ms i) u.0, noted-IsUnique m u.1)

  by_deadline :
      (value : Bytes) (o : Option ℕ)
      → keep_if (before_deadline now []) (some (record { value = value; expire_at = o }))
        ≡ live now (some (record { value = value; expire_at = o }))
  unfolding is_expired
  by_deadline value none = refl
  by_deadline value (some t) = ground arith

  keep_if-live : (j : Bytes) (o : Option Entry) → keep_if (before_deadline now j) o ≡ live now o
  unfolding is_expired
  keep_if-live j none = refl
  keep_if-live j (some e) = by_deadline e.value e.expire_at

  lookup-notes :
      (j : Bytes) (db : Database)
      → IsUnique db
      → lookup j (keyed (notes db)) ≡ noted now unix_ms j (live now (lookup j db))
  lookup-notes j db u =
      lookup-noted j (retain (before_deadline now) db)
      ∙ ap (noted now unix_ms j)
          (lookup-retain (before_deadline now) j db u ∙ keep_if-live j (lookup j db))

  abbrev all_notes : List Database → List DbSnapshotEntry
  all_notes [] = []
  all_notes (db ∷ shards) = notes db ++ all_notes shards

  snapshot_loop-notes :
      (shards : List Database) (key_count expired_count : ℕ) (entries : List DbSnapshotEntry)
      → (snapshot_loop now unix_ms shards key_count expired_count entries).3
        ≡ entries ++ all_notes shards
  unfolding snapshot_loop
  snapshot_loop-notes [] key_count expired_count entries = sym (append-nil entries)
  snapshot_loop-notes (db ∷ shards) key_count expired_count entries =
      snapshot_loop-notes shards _ _ (entries ++ notes db) ∙ rw append_assoc refl

  lookup-all_notes :
      (j : Bytes) (db : Database) (shards : List Database)
      → IsUnique db
      → lookup j (keyed (all_notes (db ∷ shards)))
        ≡ or_else
            (noted now unix_ms j (live now (lookup j db)))
            (lookup j (keyed (all_notes shards)))
  lookup-all_notes j db shards u =
      ap (lookup j) (keyed-append (notes db) (all_notes shards))
      ∙ lookup-append j (keyed (notes db)) (keyed (all_notes shards))
      ∙ ap (λ o. or_else o (lookup j (keyed (all_notes shards)))) (lookup-notes j db u)

  module _ (hash : Bytes → ℕ) (n : ℕ) (j : Bytes) where
    -- A key that belongs to an earlier shard.
    elsewhere :
        (i : ℕ) (shards : List Database)
        → All IsUnique shards
        → ArePlaced hash n i shards
        → hash j % n < i
        → lookup j (keyed (all_notes shards)) ≡ none
    elsewhere i [] u h lt = unfold lookup in refl
    elsewhere i (db ∷ shards) u h lt =
        lookup-all_notes j db shards u.0
        ∙ rw (h.0 j (omega arith)) (elsewhere (suc i) shards u.1 h.1 (omega arith))

    found :
        (i p : ℕ) (shards : List Database)
        → All IsUnique shards
        → ArePlaced hash n i shards
        → hash j % n ≡ i + p
        → lookup j (keyed (all_notes shards))
          ≡ noted now unix_ms j (live now (lookup j (get_or shards p [])))
    found i p [] u h e = unfold lookup in refl
    found i zero (db ∷ shards) u h e =
        lookup-all_notes j db shards u.0
        ∙ rw (elsewhere (suc i) shards u.1 h.1 (omega arith)) (or_else-none _)
    found i (suc p) (db ∷ shards) u h e =
        lookup-all_notes j db shards u.0
        ∙ rw (h.0 j (omega arith)) (found (suc i) p shards u.1 h.1 (omega arith))

  all_notes-IsUnique :
      (hash : Bytes → ℕ) (n i : ℕ) (shards : List Database)
      → All IsUnique shards
      → ArePlaced hash n i shards
      → IsUnique (keyed (all_notes shards))
  all_notes-IsUnique hash n i [] u h = tt
  all_notes-IsUnique hash n i (db ∷ shards) u h = rw (keyed-append (notes db) (all_notes shards)) (
      append-IsUnique (keyed (notes db)) (keyed (all_notes shards))
        (noted-IsUnique (retain (before_deadline now) db)
          (retain-IsUnique (before_deadline now) db u.0))
        (all_notes-IsUnique hash n (suc i) shards u.1 h.1)
        (λ k. elim (Bool-cases (hash k % n == i)) [
          | inl e ↦ inr (elsewhere hash n k (suc i) shards u.1 h.1 (ground arith))
          | inr e ↦ inl (
              lookup-notes k db u.0
              ∙ ap (λ o. noted now unix_ms k (live now o)) (h.0 k (λ q. ground arith)))
        ]))

module _ (hash : Bytes → ℕ) (c : Clock) (s : ShardedDatabase) (v : IsValid hash s) where
  entries_sorted :
      (snapshot_entries c s).0.entries
      ≡ sort_by (λ e. e.key) (all_notes c.instant (current_unix_ms c.unix) s.shards)
  unfolding snapshot_entries
  entries_sorted =
      ap (sort_by (λ e. e.key))
        (snapshot_loop-notes c.instant (current_unix_ms c.unix) s.shards s.key_count 0 [])

  shards-IsUnique : IsUnique (keyed (all_notes c.instant (current_unix_ms c.unix) s.shards))
  shards-IsUnique =
      all_notes-IsUnique c.instant (current_unix_ms c.unix) hash (length s.shards) 0 s.shards
        v.unique v.placed

  -- The entries of a snapshot have distinct keys.
  pub snapshot_entries-IsUnique : IsUnique (keyed (snapshot_entries c s).0.entries)
  snapshot_entries-IsUnique = rw entries_sorted (sort_by-IsSame _ shards-IsUnique).unique

  -- A snapshot has under each key what is visible, as it writes it down.
  pub lookup-snapshot_entries :
      (j : Bytes)
      → lookup j (keyed (snapshot_entries c s).0.entries)
        ≡ noted c.instant (current_unix_ms c.unix) j (visible hash c.instant s j)
  unfolding visible find shard_for_key
  lookup-snapshot_entries j =
      rw entries_sorted ((sort_by-IsSame _ shards-IsUnique).same j)
      ∙ found c.instant (current_unix_ms c.unix) hash (length s.shards) j 0
          (hash j % length s.shards) s.shards v.unique v.placed (omega arith)
