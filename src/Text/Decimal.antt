-- ===== src/Text/Decimal.antt =====
-- `to_string` of an integer, and `parse::<u64>` and `parse::<i64>` of a text.
pub mod RoundTrip
use rustkv_lab.Prelude.{
  ℕ, zero, suc, ◌+◌, ◌-◌, ◌*◌, ◌/◌, ◌%◌, ◌^◌, ◌<◌, ◌≡◌, refl, Bool, ◌&&◌, Option, none, some, [],
  ◌∷◌, arith, Bytes, ltb, leb, ◌==◌, if◌then◌else◌,
}
use rustkv_lab.Prelude.Int.{ℤ, pos, negsuc}

-- Each round divides `n` by ten; `suc n` rounds are more than enough.
digits : ℕ → ℕ → Bytes → Bytes
digits zero n out = out
digits (suc fuel) n out =
    let rest = digits fuel (n / 10) ((b'0' + n % 10) ∷ out) in
    if ltb n 10 then (b'0' + n) ∷ out else rest

unfoldable pub to_string : ℕ → Bytes
unfolding digits
to_string n = digits (suc n) n []

unfoldable pub int_to_string : ℤ → Bytes
unfolding to_string
int_to_string (pos n) = to_string n
int_to_string (negsuc n) = b'-' ∷ to_string (suc n)

scan : Bytes → ℕ → Option ℕ
scan [] n = some n
scan (c ∷ s) n = if leb b'0' c && leb c b'9' then scan s (n * 10 + (c - b'0')) else none

-- One digit or more.
digits_value : Bytes → Option ℕ
unfolding scan
digits_value [] = none
digits_value (c ∷ s) = scan (c ∷ s) 0

abbrev below : ℕ → Option ℕ → Option ℕ
below limit none = none
below limit (some n) = if ltb n limit then some n else none

-- A leading `+` is accepted, a leading `-` is not.
unfoldable pub parse_u64 : Bytes → Option ℕ
unfolding digits_value
parse_u64 [] = none
parse_u64 (c ∷ s) = below (2 ^ 64) (if c == b'+' then digits_value s else digits_value (c ∷ s))

below_lt : (limit : ℕ) (o : Option ℕ) (n : ℕ) → below limit o ≡ some n → n < limit
below_lt limit none n e = absurd (ground (arith, e))
below_lt limit (some m) n e = ground (arith, e)

pub parse_u64_lt : (s : Bytes) (n : ℕ) → parse_u64 s ≡ some n → n < 2 ^ 64
unfolding parse_u64
parse_u64_lt [] n e = absurd (ground (arith, e))
parse_u64_lt (c ∷ s) n e =
    below_lt (2 ^ 64) (if c == b'+' then digits_value s else digits_value (c ∷ s)) n e

abbrev non_negative : Option ℕ → Option ℤ
non_negative none = none
non_negative (some n) = some (pos n)

abbrev negate : Option ℕ → Option ℤ
negate none = none
negate (some zero) = some (pos 0)
negate (some (suc n)) = some (negsuc n)

unfoldable pub parse_i64 : Bytes → Option ℤ
unfolding digits_value
parse_i64 [] = none
parse_i64 (c ∷ s) =
    if c == b'-'
    then negate (below (2 ^ 63 + 1) (digits_value s))
    else non_negative (below (2 ^ 63) (if c == b'+' then digits_value s else digits_value (c ∷ s)))

parse_samples :
    (parse_i64 (b'-' ∷ b'4' ∷ b'2' ∷ []) ≡ some (negsuc 41))
    × (parse_i64 (b'-' ∷ []) ≡ none)
    × (parse_u64 (b'+' ∷ b'7' ∷ []) ≡ some 7)
    × (parse_u64 (b'-' ∷ b'7' ∷ []) ≡ none)
    × (parse_u64 (to_string (2 ^ 64)) ≡ none)
    × (parse_i64 (int_to_string (negsuc (2 ^ 63 - 1))) ≡ some (negsuc (2 ^ 63 - 1)))
unfolding parse_i64 parse_u64 int_to_string
parse_samples = (refl, refl, refl, refl, refl, refl)
