-- ===== src/Core/Sharded/Entries/Keyed.antt =====
-- The entries of a snapshot as a map by their keys: in two parts, and sorted.
use rustkv_lab.Prelude.{
  ◌≡◌, ◌⊎◌, refl, ◌∙◌, ap, Option, none, some, List, [], ◌∷◌, ◌++◌, map, arith, Bytes, bytes_eq,
  bytes_eq_iff, if◌then◌else◌,
}
use rustkv_lab.Core.HashMap.{Map, lookup}
use rustkv_lab.Core.HashMap.Laws.{IsUnique}
use rustkv_lab.Core.Sort.{insert_sorted, sort_by}
use rustkv_lab.Core.Sharded.{DbSnapshotEntry}

-- The entries of a snapshot by their keys.
abbrev pub keyed : List DbSnapshotEntry → Map DbSnapshotEntry
keyed = map (λ e. (e.key, e))

abbrev pub or_else : Option DbSnapshotEntry → Option DbSnapshotEntry → Option DbSnapshotEntry
or_else none o = o
or_else (some e) o = some e

pub or_else-none : (o : Option DbSnapshotEntry) → or_else o none ≡ o
or_else-none none = refl
or_else-none (some e) = refl

pub keyed-append : (xs ys : List DbSnapshotEntry) → keyed (xs ++ ys) ≡ keyed xs ++ keyed ys
keyed-append [] ys = refl
keyed-append (x ∷ xs) ys = ap (λ m. (x.key, x) ∷ m) (keyed-append xs ys)

pub lookup-append :
    (j : Bytes) (m m' : Map DbSnapshotEntry)
    → lookup j (m ++ m') ≡ or_else (lookup j m) (lookup j m')
unfolding lookup
lookup-append j [] m' = refl
lookup-append j ((i, e) ∷ m) m' = ground (arith, lookup-append j m m')

-- Two maps without a common key.
abbrev pub AreApart : Map DbSnapshotEntry → Map DbSnapshotEntry → Type 0
AreApart m m' = (k : Bytes) → (lookup k m ≡ none) ⊎ (lookup k m' ≡ none)

pub append-IsUnique :
    (m m' : Map DbSnapshotEntry) → IsUnique m → IsUnique m' → AreApart m m' → IsUnique (m ++ m')
unfolding lookup
append-IsUnique [] m' u u' a = u'
append-IsUnique ((i, e) ∷ m) m' u u' a = (
  ground (arith, lookup-append i m m', u.0, a i, bytes_eq_iff i i),
  append-IsUnique m m' u.1 u' (λ k. ground (arith, a k)),
)

-- Sorting by distinct keys.
lookup-insert_sorted :
    (j : Bytes) (x : DbSnapshotEntry) (xs : List DbSnapshotEntry)
    → lookup x.key (keyed xs) ≡ none
    → lookup j (keyed (insert_sorted (λ e. e.key) x xs)) ≡ lookup j (keyed (x ∷ xs))
unfolding lookup insert_sorted
lookup-insert_sorted j x [] h = refl
lookup-insert_sorted j x (y ∷ ys) h = ground (
  arith,
  bytes_eq_iff x.key j,
  bytes_eq_iff y.key j,
  bytes_eq_iff y.key x.key,
  lookup-insert_sorted j x ys,
)

insert_sorted-IsUnique :
    (x : DbSnapshotEntry) (xs : List DbSnapshotEntry)
    → lookup x.key (keyed xs) ≡ none
    → IsUnique (keyed xs)
    → IsUnique (keyed (insert_sorted (λ e. e.key) x xs))
unfolding lookup insert_sorted
insert_sorted-IsUnique x [] h u = (h, tt)
insert_sorted-IsUnique x (y ∷ ys) h u = ground (
  arith,
  bytes_eq_iff y.key x.key,
  bytes_eq_iff x.key y.key,
  lookup-insert_sorted y.key x ys,
  insert_sorted-IsUnique x ys,
)

-- What sorting does to entries with distinct keys.
pub record IsSame (es es' : List DbSnapshotEntry) : Type 0 where
  pub unique : IsUnique (keyed es')
  pub same : (j : Bytes) → lookup j (keyed es') ≡ lookup j (keyed es)

pub sort_by-IsSame :
    (es : List DbSnapshotEntry) → IsUnique (keyed es) → IsSame es (sort_by (λ e. e.key) es)
unfolding sort_by lookup
sort_by-IsSame [] u = record { unique = tt; same = λ j. refl }
sort_by-IsSame (x ∷ xs) u =
    let sorted = sort_by (λ (e : DbSnapshotEntry). e.key) xs in
    let h = sort_by-IsSame xs u.1 in
    let fresh : lookup x.key (keyed sorted) ≡ none = h.same x.key ∙ u.0 in
    record {
      unique = insert_sorted-IsUnique x sorted fresh h.unique;
      same = λ j.
          lookup-insert_sorted j x sorted fresh
          ∙ ap (λ o. if bytes_eq x.key j then some x else o) (h.same j);
    }
