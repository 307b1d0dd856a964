-- ===== src/Text/Chars.antt =====
-- The characters of a `str`, and a `String` that is built from characters: UTF-8, decoded and encoded.
-- A character is the number of its code point.
pub mod RoundTrip
use rustkv_lab.Prelude.{
  ℕ, zero, suc, ◌+◌, ◌-◌, ◌*◌, ◌/◌, ◌%◌, ◌≤◌, ◌<◌, ◌≡◌, ◌⊎◌, refl, Bool, ◌&&◌, ◌||◌, List, [], ◌∷◌,
  ◌++◌, Bytes, ltb, leb, ◌==◌, if◌then◌else◌,
}

-- `String`, as the sequence of its characters.
abbrev pub Chars : Type 0
Chars = List ℕ

-- What a first byte says: how many bytes follow, and its share of the code point.
following : ℕ → ℕ
following b = if ltb b 0xc0 then 0 else if ltb b 0xe0 then 1 else if ltb b 0xf0 then 2 else 3

payload : ℕ → ℕ
payload b = if ltb b 0xe0 then b - 0xc0 else if ltb b 0xf0 then b - 0xe0 else b - 0xf0

-- The bytes that are still expected, and the code point as far as it is read.
chars_from : ℕ → ℕ → Bytes → Chars
unfolding following payload
chars_from k code [] = []
chars_from zero code (b ∷ s) =
    let rest = chars_from (following b) (payload b) s in if ltb b 0x80 then b ∷ rest else rest
chars_from (suc zero) code (b ∷ s) = (code * 64 + (b - 0x80)) ∷ chars_from 0 0 s
chars_from (suc (suc k)) code (b ∷ s) = chars_from (suc k) (code * 64 + (b - 0x80)) s

-- `str::chars`, of bytes that are UTF-8
unfoldable pub chars : Bytes → Chars
unfolding chars_from
chars s = chars_from 0 0 s

char_bytes : ℕ → Bytes
char_bytes c =
    if ltb c 0x80
    then c ∷ []
    else if ltb c 0x800
    then (0xc0 + c / 64) ∷ (0x80 + c % 64) ∷ []
    else if ltb c 0x10000
    then (0xe0 + c / 4096) ∷ (0x80 + c / 64 % 64) ∷ (0x80 + c % 64) ∷ []
    else (0xf0 + c / 262144) ∷ (0x80 + c / 4096 % 64) ∷ (0x80 + c / 64 % 64) ∷ (0x80 + c % 64) ∷ []

-- `String::into_bytes`
unfoldable pub into_bytes : Chars → Bytes
unfolding char_bytes
into_bytes [] = []
into_bytes (c ∷ cs) = char_bytes c ++ into_bytes cs

-- The values of the type `char`.
abbrev pub IsChar : ℕ → Type 0
IsChar c = (c < 0xd800) ⊎ ((0xe000 ≤ c) × (c < 0x110000))

-- `char::is_control`
unfoldable pub is_control : ℕ → Bool
is_control c = leb c 0x1f || (leb 0x7f c && leb c 0x9f)

-- `char::is_whitespace`
unfoldable pub is_whitespace : ℕ → Bool
is_whitespace c =
    c == b' '
    || (leb 0x09 c && leb c 0x0d)
    || c == 0x85
    || c == 0xa0
    || c == 0x1680
    || (leb 0x2000 c && leb c 0x200a)
    || c == 0x2028
    || c == 0x2029
    || c == 0x202f
    || c == 0x205f
    || c == 0x3000

samples :
    (into_bytes (b'a' ∷ 0xe9 ∷ 0x20ac ∷ 0x1f600 ∷ [])
      ≡ b'a' ∷ 0xc3 ∷ 0xa9 ∷ 0xe2 ∷ 0x82 ∷ 0xac ∷ 0xf0 ∷ 0x9f ∷ 0x98 ∷ 0x80 ∷ [])
    × (chars (b'a' ∷ 0xc3 ∷ 0xa9 ∷ 0xe2 ∷ 0x82 ∷ 0xac ∷ 0xf0 ∷ 0x9f ∷ 0x98 ∷ 0x80 ∷ [])
        ≡ b'a' ∷ 0xe9 ∷ 0x20ac ∷ 0x1f600 ∷ [])
unfolding into_bytes chars
samples = (refl, refl)
