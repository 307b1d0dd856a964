-- ===== src/Core/Sort.antt =====
-- `sort` on `String`s: the order of their bytes.
use rustkv_lab.Prelude.{
  ◌≡◌, refl, Bool, true, false, List, [], ◌∷◌, arith, Bytes, ltb, ◌==◌, ◌&&◌, ◌||◌, if◌then◌else◌,
  All, inl, inr, Bool-cases,
}

unfoldable pub bytes_leb : Bytes → Bytes → Bool
bytes_leb [] t = true
bytes_leb (a ∷ s) [] = false
bytes_leb (a ∷ s) (b ∷ t) = ltb a b || (a == b && bytes_leb s t)

-- A stable sort by a key.
module _ {ℓ} {A : Type ℓ} (key : A → Bytes) where
  unfoldable pub insert_sorted : A → List A → List A
  insert_sorted x [] = x ∷ []
  insert_sorted x (y ∷ ys) =
      if bytes_leb (key x) (key y) then x ∷ y ∷ ys else y ∷ insert_sorted x ys

  unfoldable pub sort_by : List A → List A
  unfolding insert_sorted bytes_leb
  sort_by [] = []
  sort_by (x ∷ xs) = insert_sorted x (sort_by xs)

unfoldable pub sort : List Bytes → List Bytes
unfolding sort_by
sort = sort_by (λ s. s)

pub bytes_leb_total : (s t : Bytes) → bytes_leb s t ≡ false → bytes_leb t s ≡ true
unfolding bytes_leb
bytes_leb_total [] t h = cc
bytes_leb_total (a ∷ s) [] h = refl
bytes_leb_total (a ∷ s) (b ∷ t) h = ground (arith, bytes_leb_total s t)

pub bytes_leb_trans :
    (s t u : Bytes) → bytes_leb s t ≡ true → bytes_leb t u ≡ true → bytes_leb s u ≡ true
unfolding bytes_leb
bytes_leb_trans [] t u h k = refl
bytes_leb_trans (a ∷ s) [] u h k = cc
bytes_leb_trans (a ∷ s) (b ∷ t) [] h k = cc
bytes_leb_trans (a ∷ s) (b ∷ t) (c ∷ u) h k = ground (arith, bytes_leb_trans s t u)

module _ {ℓ} {A : Type ℓ} (key : A → Bytes) where
  -- Each item's key is at most those of all items behind it.
  abbrev pub IsSorted : List A → Type 0
  IsSorted [] = Unit
  IsSorted (x ∷ xs) = All (λ y. bytes_leb (key x) (key y) ≡ true) xs × IsSorted xs

  All-insert_sorted {κ} :
      (P : A → Type κ) (x : A) (xs : List A) → P x → All P xs → All P (insert_sorted key x xs)
  unfolding insert_sorted
  All-insert_sorted P x [] px h = (px, tt)
  All-insert_sorted P x (y ∷ ys) px h = elim (Bool-cases (bytes_leb (key x) (key y))) [
    | inl e ↦ rw e (px, h)
    | inr e ↦ rw e (h.0, All-insert_sorted P x ys px h.1)
  ]

  All-above :
      (x y : A) (ys : List A)
      → bytes_leb (key x) (key y) ≡ true
      → All (λ z. bytes_leb (key y) (key z) ≡ true) ys
      → All (λ z. bytes_leb (key x) (key z) ≡ true) ys
  All-above x y [] e h = tt
  All-above x y (z ∷ zs) e h =
      (bytes_leb_trans (key x) (key y) (key z) e h.0, All-above x y zs e h.1)

  insert_sorted-IsSorted : (x : A) (xs : List A) → IsSorted xs → IsSorted (insert_sorted key x xs)
  unfolding insert_sorted
  insert_sorted-IsSorted x [] h = (tt, tt)
  insert_sorted-IsSorted x (y ∷ ys) h = elim (Bool-cases (bytes_leb (key x) (key y))) [
    | inl e ↦ rw e ((e, All-above x y ys e h.0), h)
    | inr e ↦ rw e (
      All-insert_sorted (λ z. bytes_leb (key y) (key z) ≡ true) x ys
          (bytes_leb_total (key x) (key y) e) h.0,
      insert_sorted-IsSorted x ys h.1,
    )
  ]

  pub sort_by-IsSorted : (xs : List A) → IsSorted (sort_by key xs)
  unfolding sort_by
  sort_by-IsSorted [] = tt
  sort_by-IsSorted (x ∷ xs) = insert_sorted-IsSorted x (sort_by key xs) (sort_by-IsSorted xs)
