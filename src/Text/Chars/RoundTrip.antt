-- ===== src/Text/Chars/RoundTrip.antt =====
-- The bytes of a string of characters are UTF-8, and its characters are read back from them.
use rustkv_lab.Prelude.{ℕ, ◌≡◌, refl, ap, ◌∙◌, true, [], ◌∷◌, ◌++◌, arith, Bytes, All}
use rustkv_lab.Text.Utf8.{utf8_from, is_utf8, IsAscii}
use rustkv_lab.Text.Chars.{Chars, chars_from, chars, char_bytes, into_bytes, IsChar}

chars_from-char_bytes :
    (c : ℕ) (s : Bytes) → IsChar c → chars_from 0 0 (char_bytes c ++ s) ≡ c ∷ chars_from 0 0 s
unfolding chars_from char_bytes
chars_from-char_bytes c s h = ground arith

-- The characters of a string are those that it was built from.
pub chars-into_bytes : (cs : Chars) → All IsChar cs → chars (into_bytes cs) ≡ cs
unfolding chars into_bytes
chars-into_bytes [] h = refl
chars-into_bytes (c ∷ cs) h =
    chars_from-char_bytes c (into_bytes cs) h.0 ∙ ap (λ t. c ∷ t) (chars-into_bytes cs h.1)

pub chars_append_ascii : (s t : Bytes) → IsAscii s → chars (s ++ t) ≡ s ++ chars t
unfolding chars chars_from
chars_append_ascii [] t h = refl
chars_append_ascii (c ∷ s) t h = ground (arith, chars_append_ascii s t h.1)

pub chars_of_ascii : (s : Bytes) → IsAscii s → chars s ≡ s
unfolding chars chars_from
chars_of_ascii [] h = refl
chars_of_ascii (c ∷ s) h = ground (arith, chars_of_ascii s h.1)

utf8_from-char_bytes :
    (c : ℕ) (s : Bytes) → IsChar c → utf8_from [] (char_bytes c ++ s) ≡ utf8_from [] s
unfolding utf8_from char_bytes
utf8_from-char_bytes c s h = ground arith

-- A string of characters is UTF-8.
pub is_utf8-into_bytes : (cs : Chars) → All IsChar cs → is_utf8 (into_bytes cs) ≡ true
unfolding is_utf8 utf8_from into_bytes
is_utf8-into_bytes [] h = refl
is_utf8-into_bytes (c ∷ cs) h =
    utf8_from-char_bytes c (into_bytes cs) h.0 ∙ is_utf8-into_bytes cs h.1
