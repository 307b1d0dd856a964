-- ===== src/Text/Ascii.antt =====
-- `to_ascii_uppercase` and `split_ascii_whitespace`.
use rustkv_lab.Prelude.{
  ℕ, ◌-◌, ◌≡◌, refl, Bool, true, false, ◌&&◌, ◌||◌, List, [], ◌∷◌, ◌++◌, map, arith, Bytes, leb,
  ◌==◌, if◌then◌else◌, ap₂,
}

unfoldable pub upper : ℕ → ℕ
upper c = if leb b'a' c && leb c b'z' then c - 32 else c

unfoldable pub to_ascii_uppercase : Bytes → Bytes
unfolding upper
to_ascii_uppercase = map upper

-- Upper case has no lower-case letter left: a second pass changes nothing.
upper-upper : (c : ℕ) → upper (upper c) ≡ upper c
unfolding upper
upper-upper c = ground arith

pub to_ascii_uppercase_idem :
    (s : Bytes) → to_ascii_uppercase (to_ascii_uppercase s) ≡ to_ascii_uppercase s
unfolding to_ascii_uppercase
to_ascii_uppercase_idem [] = refl
to_ascii_uppercase_idem (c ∷ s) = ap₂ (λ d t. d ∷ t) (upper-upper c) (to_ascii_uppercase_idem s)

-- Space, tab, line feed, form feed, carriage return.
unfoldable pub is_ascii_whitespace : ℕ → Bool
is_ascii_whitespace c = c == 0x20 || c == 0x09 || c == 0x0a || c == 0x0c || c == 0x0d

abbrev flush : Bytes → List Bytes → List Bytes
flush [] words = words
flush (c ∷ word) words = (c ∷ word) ∷ words

-- `word` holds the bytes since the last white space.
words_from : Bytes → Bytes → List Bytes
words_from word [] = flush word []
words_from word (c ∷ s) = elim (is_ascii_whitespace c) [
  | true ↦ flush word (words_from [] s)
  | false ↦ words_from (word ++ c ∷ []) s
]

unfoldable pub split_ascii_whitespace : Bytes → List Bytes
unfolding words_from is_ascii_whitespace
split_ascii_whitespace s = words_from [] s

split_sample :
    split_ascii_whitespace (b' ' ∷ b'g' ∷ b'e' ∷ b' ' ∷ 9 ∷ b'k' ∷ [])
    ≡ (b'g' ∷ b'e' ∷ []) ∷ (b'k' ∷ []) ∷ []
unfolding split_ascii_whitespace
split_sample = refl
