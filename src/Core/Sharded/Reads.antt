-- ===== src/Core/Sharded/Reads.antt =====
-- `get`, `exists` and `ttl` answer by what is visible, and change nothing that is visible later.
use rustkv_lab.Prelude.{
  ℕ, ◌+◌, ◌*◌, ◌^◌, ◌≤◌, ◌<◌, ◌≡◌, ◌⊎◌, refl, true, Option, none, some, arith, leb, [], Bytes,
  bytes_eq, bytes_eq_iff, Bool-cases, inl, inr, sym, ◌∙◌, ◌-◌, length, get_or, ok,
}
use rustkv_lab.Prelude.Int.{ℤ, pos, negsuc}
use rustkv_lab.Core.Entry.{Entry}
use rustkv_lab.Core.HashMap.{lookup}
use rustkv_lab.Core.Time.{Clock, Outcome, returned}
use rustkv_lab.Core.Database
use rustkv_lab.Core.Database.{Database, value_of, is_some, ceil_secs, as_i64}
use rustkv_lab.Core.Database.View.{
  live, get_lem, exists_lem, ttl_lem, ttl_spec, live-get, live-exists, live-ttl,
}
use rustkv_lab.Core.Sharded.{ShardedDatabase, DbOutcome, apply_len_change}
use rustkv_lab.Core.Sharded.Step.{shard_for_key, run_key, get, exists, ttl}
use rustkv_lab.Core.Sharded.Valid.{IsValid}
use rustkv_lab.Core.Sharded.View.{visible, visible-run_shard}

-- The operation returned, with this answer.
abbrev pub Answers : {A : Type 0} → Outcome (DbOutcome A) → A → Type 0
Answers {A} o a = (d : DbOutcome A) × (o ≡ returned d) × (d.result ≡ ok a)

-- Nothing changed that is visible at `later`.
abbrev pub SameView : (Bytes → ℕ) → ℕ → ShardedDatabase → ShardedDatabase → Type 0
SameView hash later s' s = (j : Bytes) → visible hash later s' j ≡ visible hash later s j

module _ (hash : Bytes → ℕ) (key : Bytes) (s : ShardedDatabase) where
  -- A method that answers lets the operation answer.
  pub run_key-Answers :
      {A : Type 0} (method : Database.Method A) (a : A)
      → (method (get_or s.shards (shard_for_key hash s key) [])).0 ≡ returned (ok a)
      → Answers (run_key hash key method s).0 a
  unfolding run_key
  run_key-Answers method a e =
      let db = get_or s.shards (shard_for_key hash s key) [] in
      (
        record {
          result = ok a;
          key_count = apply_len_change (length db) (length (method db).1) s.key_count;
          expired_count = length db - length (method db).1;
        },
        rw (run_key, e),
        refl,
      )

  visible_key :
      (later : ℕ) (j : Bytes)
      → bytes_eq key j ≡ true
      → visible hash later s j
        ≡ live later (lookup j (get_or s.shards (shard_for_key hash s key) []))
  unfolding visible
  visible_key later j q = rw (← (bytes_eq_iff key j).0 q)

  pub run_key-SameView :
      {A : Type 0} (method : Database.Method A) (later : ℕ)
      → IsValid hash s
      → ((j : Bytes)
          → live later (lookup j (method (get_or s.shards (shard_for_key hash s key) [])).1)
            ≡ live later (lookup j (get_or s.shards (shard_for_key hash s key) [])))
      → SameView hash later (run_key hash key method s).1 s
  unfolding run_key
  run_key-SameView method later v h j = elim (Bool-cases (bytes_eq key j)) [
    | inl q ↦
        visible-run_shard hash key method s later j (visible hash later s j) v
          (rw q (h j ∙ sym (visible_key later j q)))
        ∙ (rw q)
    | inr q ↦ visible-run_shard hash key method s later j none v (rw q (h j)) ∙ (rw q)
  ]

-- The seconds that are left, rounded up.
abbrev IsRemaining : ℕ → Option ℕ → ℤ → Type 0
IsRemaining now none t = t ≡ negsuc 0
IsRemaining now (some deadline) t =
    ((deadline ≤ now) × (t ≡ negsuc 1))
    ⊎ ((now < deadline)
        × ((s : ℕ) × (t ≡ pos s)
            × (deadline - now ≤ s * 1000000000)
            × (s * 1000000000 < deadline - now + 1000000000)))

-- What `TTL` tells of an entry: -2 without one, -1 without a deadline, -2 at the deadline, and before
-- it the seconds left.
abbrev pub IsTtl : ℕ → Option Entry → ℤ → Type 0
IsTtl now none t = t ≡ negsuc 1
IsTtl now (some e) t = IsRemaining now e.expire_at t

abbrev IsNear : ℕ → Option ℕ → Type 0
IsNear now none = Unit
IsNear now (some deadline) = deadline - now ≤ (2 ^ 63 - 1) * 1000000000

-- The seconds left are of 63 bits.
abbrev pub IsNearby : ℕ → Option Entry → Type 0
IsNearby now none = Unit
IsNearby now (some e) = IsNear now e.expire_at

ceil_secs_lem :
    (remaining : ℕ)
    → (remaining ≤ ceil_secs remaining * 1000000000)
      × (ceil_secs remaining * 1000000000 < remaining + 1000000000)
unfolding ceil_secs
ceil_secs_lem remaining = ground arith

ttl_spec-IsRemaining :
    (value : Bytes) (now : ℕ) (o : Option ℕ)
    → IsNear now o
    → IsRemaining now o (ttl_spec now (some (record { value = value; expire_at = o })))
ttl_spec-IsRemaining value now none near = refl
ttl_spec-IsRemaining value now (some deadline) near = elim (Bool-cases (leb deadline now)) [
  | inl e ↦ rw e (inl (ground arith, refl))
  | inr e ↦
      let (lo, hi) = ceil_secs_lem (deadline - now) in
      rw e (inr (ground arith, (ceil_secs (deadline - now), ground (arith, lo, hi, near), lo, hi)))
]

ttl_spec-IsTtl : (now : ℕ) (o : Option Entry) → IsNearby now o → IsTtl now o (ttl_spec now o)
ttl_spec-IsTtl now none near = refl
ttl_spec-IsTtl now (some e) near = ttl_spec-IsRemaining e.value now e.expire_at near

module _ (hash : Bytes → ℕ) (key : Bytes) (s : ShardedDatabase) (v : IsValid hash s)
    (c : Clock) where
  -- `get` on a valid store returns the value that is visible when it tests the entry, and hides
  -- nothing later.
  pub get-reads :
      (later : ℕ)
      → c.scan key ≤ later
      → Answers (get hash c key s).0 (value_of (visible hash (c.scan key) s key))
        × SameView hash later (get hash c key s).1 s
  unfolding get visible
  get-reads later h =
      let db = get_or s.shards (shard_for_key hash s key) [] in
      (
        run_key-Answers hash key s (Database.get c key) _ (get_lem c key db),
        run_key-SameView hash key s (Database.get c key) later v (λ j. live-get c key j db later h),
      )

  -- `exists` on a valid store answers whether an entry is visible, and hides nothing later.
  pub exists-reads :
      (later : ℕ)
      → c.scan key ≤ later
      → Answers (exists hash c key s).0 (is_some (visible hash (c.scan key) s key))
        × SameView hash later (exists hash c key s).1 s
  unfolding exists visible
  exists-reads later h =
      let db = get_or s.shards (shard_for_key hash s key) [] in
      (
        run_key-Answers hash key s (Database.exists c key) _ (exists_lem c key db),
        run_key-SameView hash key s (Database.exists c key) later v
            (λ j. live-exists c key j db later h),
      )

  -- `ttl` on a valid store answers by the deadline of the entry that is visible: -2 without an
  -- entry or at the deadline, -1 without a deadline, and before it the least number of seconds that
  -- is not less than the time left, if that is below 2^63. It hides nothing later.
  pub ttl-reads :
      (later : ℕ)
      → c.scan key ≤ later
      → c.instant ≤ later
      → IsNearby c.instant (visible hash (c.scan key) s key)
      → (t : ℤ) × Answers (ttl hash c key s).0 t
        × IsTtl c.instant (visible hash (c.scan key) s key) t
        × SameView hash later (ttl hash c key s).1 s
  unfolding ttl visible
  ttl-reads later h h' near =
      let db = get_or s.shards (shard_for_key hash s key) [] in
      (
        ttl_spec c.instant (live (c.scan key) (lookup key db)),
        run_key-Answers hash key s (Database.ttl c key) _ (ttl_lem c key db),
        ttl_spec-IsTtl c.instant (live (c.scan key) (lookup key db)) near,
        run_key-SameView hash key s (Database.ttl c key) later v
            (λ j. live-ttl c key j db later h h'),
      )
