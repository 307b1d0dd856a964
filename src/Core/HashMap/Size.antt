-- ===== src/Core/HashMap/Size.antt =====
-- How the number of entries changes.
use rustkv_lab.Prelude.{
  ℕ, ◌+◌, ◌≤◌, ◌≡◌, refl, Bool, Option, none, some, [], ◌∷◌, arith, Bytes, bytes_eq_iff, length,
}
use rustkv_lab.Core.HashMap.{Map, lookup, insert, remove, retain}
use rustkv_lab.Core.HashMap.Laws.{IsUnique}

-- One if the key is there.
abbrev pub presence {ℓ} : {V : Type ℓ} → Option V → ℕ
presence none = 0
presence (some v) = 1

module _ {ℓ} {V : Type ℓ} where
  pub length-insert :
      (k : Bytes) (v : V) (m : Map V) → length (insert k v m) + presence (lookup k m) ≡ length m + 1
  unfolding lookup insert
  length-insert k v [] = omega arith
  length-insert k v ((i, w) ∷ m) = ground (arith, length-insert k v m)

  length-remove-none : (k : Bytes) (m : Map V) → lookup k m ≡ none → length (remove k m) ≡ length m
  unfolding lookup remove
  length-remove-none k [] h = refl
  length-remove-none k ((i, w) ∷ m) h = ground (arith, length-remove-none k m)

  pub length-remove :
      (k : Bytes) (m : Map V) → IsUnique m → length (remove k m) + presence (lookup k m) ≡ length m
  unfolding lookup remove
  length-remove k [] u = omega arith
  length-remove k ((i, w) ∷ m) u =
      ground (arith, bytes_eq_iff i k, length-remove-none k m, length-remove k m u.1)

  pub length-retain : (p : Bytes → V → Bool) (m : Map V) → length (retain p m) ≤ length m
  unfolding retain
  length-retain p [] = omega arith
  length-retain p ((i, w) ∷ m) = ground (arith, length-retain p m)

  -- A filter drops no more entries than it shortens the map by.
  pub length-retain_key :
      (p : Bytes → V → Bool) (k : Bytes) (m : Map V)
      → IsUnique m
      → length (retain p m) + presence (lookup k m) ≤ length m + presence (lookup k (retain p m))
  unfolding lookup retain
  length-retain_key p k [] u = omega arith
  length-retain_key p k ((i, w) ∷ m) u =
      ground (arith, bytes_eq_iff i k, length-retain p m, length-retain_key p k m u.1)
