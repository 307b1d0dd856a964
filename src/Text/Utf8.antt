-- ===== src/Text/Utf8.antt =====
-- `str::from_utf8`: the check that a byte string is well-formed UTF-8.
use rustkv_lab.Prelude.{
  ℕ, ◌<◌, ◌≡◌, refl, Bool, true, false, ◌&&◌, Option, none, some, List, [], ◌∷◌, arith, Bytes, ltb,
  leb, if◌then◌else◌, All,
}

-- The ranges of the continuation bytes that are still expected.
abbrev pub Ranges : Type 0
Ranges = List (ℕ × ℕ)

abbrev tail_range : ℕ × ℕ
tail_range = (0x80, 0xbf)

-- What has to follow a first byte; `none` if no character begins with it.
lead : ℕ → Option Ranges
lead b =
    if ltb b 0x80
    then some []
    else if ltb b 0xc2
    then none
    else if ltb b 0xe0
    then some (tail_range ∷ [])
    else if ltb b 0xe1
    then some ((0xa0, 0xbf) ∷ tail_range ∷ [])
    else if ltb b 0xed
    then some (tail_range ∷ tail_range ∷ [])
    else if ltb b 0xee
    then some ((0x80, 0x9f) ∷ tail_range ∷ [])
    else if ltb b 0xf0
    then some (tail_range ∷ tail_range ∷ [])
    else if ltb b 0xf1
    then some ((0x90, 0xbf) ∷ tail_range ∷ tail_range ∷ [])
    else if ltb b 0xf4
    then some (tail_range ∷ tail_range ∷ tail_range ∷ [])
    else if ltb b 0xf5
    then some ((0x80, 0x8f) ∷ tail_range ∷ tail_range ∷ [])
    else none

step : Ranges → ℕ → Option Ranges
unfolding lead
step [] b = lead b
step ((lo, hi) ∷ rs) b = if leb lo b && leb b hi then some rs else none

unfoldable pub utf8_from : Ranges → Bytes → Bool
unfolding step
utf8_from [] [] = true
utf8_from (r ∷ rs) [] = false
utf8_from rs (b ∷ s) = elim (step rs b) [ none ↦ false | some rs' ↦ utf8_from rs' s ]

unfoldable pub is_utf8 : Bytes → Bool
unfolding utf8_from
is_utf8 s = utf8_from [] s

abbrev pub IsAscii : Bytes → Type 0
IsAscii = All (λ c. c < 0x80)

pub is_utf8_of_ascii : (s : Bytes) → IsAscii s → is_utf8 s ≡ true
unfolding is_utf8
is_utf8_of_ascii [] h = refl
is_utf8_of_ascii (c ∷ s) h = ground (arith, is_utf8_of_ascii s h.1)

-- The two bytes of é, alone and cut short; an overlong form; a surrogate.
is_utf8_samples :
    (is_utf8 (0xc3 ∷ 0xa9 ∷ []) ≡ true)
    × (is_utf8 (0xc3 ∷ []) ≡ false)
    × (is_utf8 (0xc0 ∷ 0xaf ∷ []) ≡ false)
    × (is_utf8 (0xed ∷ 0xa0 ∷ 0x80 ∷ []) ≡ false)
    × (is_utf8 (0xff ∷ []) ≡ false)
unfolding is_utf8
is_utf8_samples = (refl, refl, refl, refl, refl)
