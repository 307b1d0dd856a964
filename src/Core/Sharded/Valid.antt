-- ===== src/Core/Sharded/Valid.antt =====
-- The invariant of the sharded store, and that every operation that returns keeps it.
use rustkv_lab.Prelude.{
  ℕ, zero, suc, ◌+◌, ◌%◌, ◌≤◌, ◌<◌, ◌≡◌, ◌≢◌, refl, ap, false, none, List, [], ◌∷◌, arith, Bytes,
  bytes_eq, bytes_eq_iff, length, get_or, set, length-set, All, All-set, All-get_or, Bool-cases,
  inl, inr,
}
use rustkv_lab.Core.HashMap.{lookup}
use rustkv_lab.Core.HashMap.Laws.{IsUnique}
use rustkv_lab.Core.Time.{Clock, Outcome, returned, Outcome-cases}
use rustkv_lab.Core.Database
use rustkv_lab.Core.Database.{Database}
use rustkv_lab.Core.Database.Touches.{
  Touches, Leaves, Touches-IsUnique, remove_expired-Touches, Touches-trans, Touches-lookup,
  Touches-length,
}
use rustkv_lab.Core.Sharded.{ShardedDatabase, usize_limit, apply_len_change}
use rustkv_lab.Core.Sharded.Step.{Booked, shard_for_key, run_shard, swept}

-- The number of entries in all shards.
abbrev pub total : List Database → ℕ
total [] = 0
total (db ∷ shards) = length db + total shards

-- The shards from number `i` on hold only keys that belong there; `n` is the number of shards.
abbrev pub ArePlaced : (Bytes → ℕ) → ℕ → ℕ → List Database → Type 0
ArePlaced hash n i [] = Unit
ArePlaced hash n i (db ∷ shards) =
    ((k : Bytes) → hash k % n ≢ i → lookup k db ≡ none) × ArePlaced hash n (suc i) shards

-- There is a shard, the keys of a shard are distinct and belong there, and `key_count` is exact.
pub record IsValid (hash : Bytes → ℕ) (s : ShardedDatabase) : Type 0 where
  pub some_shard : 0 < length s.shards
  pub unique : All IsUnique s.shards
  pub placed : ArePlaced hash (length s.shards) 0 s.shards
  pub counted : s.key_count ≡ total s.shards

pub total-set :
    (shards : List Database) (i : ℕ) (db : Database)
    → i < length shards
    → total (set shards i db) + length (get_or shards i []) ≡ total shards + length db
total-set [] i db h = elim h [ ]
total-set (d ∷ shards) zero db h = omega arith
total-set (d ∷ shards) (suc i) db h = omega (arith, total-set shards i db (omega arith))

module _ (hash : Bytes → ℕ) (n : ℕ) where
  ArePlaced-set :
      (i j : ℕ) (shards : List Database) (db : Database)
      → ArePlaced hash n i shards
      → ((k : Bytes) → hash k % n ≢ i + j → lookup k db ≡ none)
      → ArePlaced hash n i (set shards j db)
  ArePlaced-set i j [] db h g = tt
  ArePlaced-set i zero (d ∷ shards) db h g = (λ k ne. g k (λ e. ne (omega (arith, e))), h.1)
  ArePlaced-set i (suc j) (d ∷ shards) db h g =
      (h.0, ArePlaced-set (suc i) j shards db h.1 (λ k ne. g k (λ e. ne (omega (arith, e)))))

  pub ArePlaced-get_or :
      (i j : ℕ) (shards : List Database) (k : Bytes)
      → ArePlaced hash n i shards
      → hash k % n ≢ i + j
      → lookup k (get_or shards j []) ≡ none
  ArePlaced-get_or i j [] k h ne = unfold lookup in refl
  ArePlaced-get_or i zero (d ∷ shards) k h ne = h.0 k (λ e. ne (omega (arith, e)))
  ArePlaced-get_or i (suc j) (d ∷ shards) k h ne =
      ArePlaced-get_or (suc i) j shards k h.1 (λ e. ne (omega (arith, e)))

module _ (hash : Bytes → ℕ) (s : ShardedDatabase) (v : IsValid hash s) (key : Bytes) where
  pub shard-lt : shard_for_key hash s key < length s.shards
  unfolding shard_for_key
  shard-lt = grind (arith, v.some_shard)

  pub shard-IsUnique : IsUnique (get_or s.shards (shard_for_key hash s key) [])
  shard-IsUnique = All-get_or IsUnique s.shards (shard_for_key hash s key) [] v.unique tt

  other_key :
      (k : Bytes) → hash k % length s.shards ≢ 0 + shard_for_key hash s key → bytes_eq key k ≡ false
  unfolding shard_for_key
  other_key k ne = elim (Bool-cases (bytes_eq key k)) [
    | inl e ↦
        absurd (ne (omega (arith, ap (λ j. hash j % length s.shards) ((bytes_eq_iff key k).0 e))))
    | inr e ↦ e
  ]

  pub after_change :
      (db' : Database)
      → Touches key (get_or s.shards (shard_for_key hash s key) []) db'
      → total s.shards + 1 < usize_limit
      → IsValid hash (record {
        shards = set s.shards (shard_for_key hash s key) db';
        key_count =
            apply_len_change
              (length (get_or s.shards (shard_for_key hash s key) []))
              (length db')
              s.key_count;
      })
  unfolding apply_len_change
  after_change db' t fits =
      let i = shard_for_key hash s key in
      record {
        some_shard = omega (arith, length-set s.shards i db', v.some_shard);
        unique = All-set IsUnique s.shards i db' v.unique (Touches-IsUnique t shard-IsUnique);
        placed = rw (length-set s.shards i db') (
            ArePlaced-set hash (length s.shards) 0 i s.shards db' v.placed (λ k ne.
              Touches-lookup k t shard-IsUnique (other_key k ne)
                (ArePlaced-get_or hash (length s.shards) 0 i s.shards k v.placed ne)));
        counted =
            ground (
              arith,
              v.counted,
              total-set s.shards i db' shard-lt,
              Touches-length t shard-IsUnique,
            );
      }

  -- An operation on one key that returns keeps the invariant, if one more key can be counted.
  pub run_shard-IsValid {ℓ} :
      {R : Type ℓ} (method : Database → Outcome R × Database)
      → ((db : Database) → Leaves key db (method db))
      → total s.shards + 1 < usize_limit
      → (b : Booked R) → (run_shard hash key method s).0 ≡ returned b
      → IsValid hash (run_shard hash key method s).1
  unfolding run_shard
  run_shard-IsValid method leaves fits b e =
      let db = get_or s.shards (shard_for_key hash s key) [] in
      elim (Outcome-cases (method db).0) [
        | inl p ↦ absurd (ground (arith, p))
        | inr (a, p) ↦ rw (run_shard, p) (after_change (method db).1 (leaves db) fits)
      ]

pub swept-Touches :
    (c : Clock) (key : Bytes) (method : Database.Method (Unit {0}))
    → ((db : Database) → Leaves key db (method db))
    → (db : Database) → Leaves key db (swept c method db)
unfolding swept
swept-Touches c key method leaves db =
    Touches-trans (remove_expired-Touches c key db) (leaves (Database.remove_expired c db).1)

-- Whether it returns or panics, an operation on one key replaces one shard.
pub shards-run_shard {ℓ} :
    (hash : Bytes → ℕ) {R : Type ℓ} (key : Bytes) (method : Database → Outcome R × Database)
    (s : ShardedDatabase)
    → (run_shard hash key method s).1.shards
      ≡ set s.shards
          (shard_for_key hash s key)
          (method (get_or s.shards (shard_for_key hash s key) [])).1
unfolding run_shard
shards-run_shard hash key method s =
    elim (Outcome-cases (method (get_or s.shards (shard_for_key hash s key) [])).0) [
      | inl p ↦ rw (run_shard, p)
      | inr (a, p) ↦ rw (run_shard, p)
    ]

pub total-run_shard {ℓ} :
    (hash : Bytes → ℕ) {R : Type ℓ} (key : Bytes) (method : Database → Outcome R × Database)
    (s : ShardedDatabase)
    → IsValid hash s
    → ((db : Database) → Leaves key db (method db))
    → total (run_shard hash key method s).1.shards ≤ total s.shards + 1
total-run_shard hash key method s v leaves =
    let i = shard_for_key hash s key in
    let db = get_or s.shards i [] in
    rw (shards-run_shard hash key method s) (
      omega (
        arith,
        total-set s.shards i (method db).1 (shard-lt hash s v key),
        Touches-length (leaves db) (shard-IsUnique hash s v key),
      ))
