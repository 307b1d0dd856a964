-- ===== src/Text/Decimal/RoundTrip.antt =====
-- A printed number is read back.
use rustkv_lab.Prelude.{
  ℕ, zero, suc, ◌+◌, ◌/◌, ◌%◌, ◌^◌, ◌≤◌, ◌<◌, ◌≡◌, ◌≢◌, refl, some, [], ◌∷◌, arith, Bytes, All,
}
use rustkv_lab.Prelude.Int.{ℤ, pos, negsuc}
use rustkv_lab.Text.Utf8.{IsAscii}
use rustkv_lab.Text.Decimal.{
  digits, to_string, int_to_string, scan, digits_value, parse_u64, parse_i64,
}

abbrev pub IsDigit : ℕ → Type 0
IsDigit c = (b'0' ≤ c) × (c ≤ b'9')

scan-digits : (f n : ℕ) (out : Bytes) → n < f → scan (digits f n out) 0 ≡ scan out n
unfolding digits scan
scan-digits zero n out h = absurd (omega arith)
scan-digits (suc f) n out h = ground (arith, scan-digits f (n / 10) ((b'0' + n % 10) ∷ out))

digits-All : (f n : ℕ) (out : Bytes) → All IsDigit out → n < f → All IsDigit (digits f n out)
unfolding digits
digits-All zero n out h lt = absurd (omega arith)
digits-All (suc f) n out h lt = ground (arith, digits-All f (n / 10) ((b'0' + n % 10) ∷ out))

digits-ne-nil : (f n : ℕ) (out : Bytes) → out ≢ [] → digits f n out ≢ []
unfolding digits
digits-ne-nil zero n out h = h
digits-ne-nil (suc f) n out h = ground (arith, digits-ne-nil f (n / 10) ((b'0' + n % 10) ∷ out))

pub to_string-All : (n : ℕ) → All IsDigit (to_string n)
unfolding to_string
to_string-All n = digits-All (suc n) n [] tt (omega arith)

pub to_string-ne-nil : (n : ℕ) → to_string n ≢ []
unfolding to_string
to_string-ne-nil n = ground (arith, digits-ne-nil n (n / 10) ((b'0' + n % 10) ∷ []))

digits_value_of : (s : Bytes) → s ≢ [] → digits_value s ≡ scan s 0
unfolding digits_value
digits_value_of [] h = absurd (h refl)
digits_value_of (c ∷ s) h = refl

digits_value-to_string : (n : ℕ) → digits_value (to_string n) ≡ some n
unfolding to_string scan
digits_value-to_string n =
    ground (arith, digits_value_of (to_string n) (to_string-ne-nil n), scan-digits (suc n) n [])

parse_u64_of_digits :
    (s : Bytes) (n : ℕ)
    → All IsDigit s
    → digits_value s ≡ some n
    → n < 2 ^ 64
    → parse_u64 s ≡ some n
unfolding parse_u64
parse_u64_of_digits [] n h e lt = ground arith
parse_u64_of_digits (c ∷ s) n h e lt = ground arith

parse_i64_of_digits :
    (s : Bytes) (n : ℕ)
    → All IsDigit s
    → digits_value s ≡ some n
    → n < 2 ^ 63
    → parse_i64 s ≡ some (pos n)
unfolding parse_i64
parse_i64_of_digits [] n h e lt = ground arith
parse_i64_of_digits (c ∷ s) n h e lt = ground arith

-- Every `u64` is read back from its decimal print.
pub parse_u64-to_string : (n : ℕ) → n < 2 ^ 64 → parse_u64 (to_string n) ≡ some n
parse_u64-to_string n h =
    parse_u64_of_digits (to_string n) n (to_string-All n) (digits_value-to_string n) h

abbrev pub IsI64 : ℤ → Type 0
IsI64 (pos n) = n < 2 ^ 63
IsI64 (negsuc n) = n < 2 ^ 63

-- Every `i64` is read back from its decimal print.
pub parse_i64-int_to_string : (i : ℤ) → IsI64 i → parse_i64 (int_to_string i) ≡ some i
unfolding int_to_string
parse_i64-int_to_string (pos n) h =
    parse_i64_of_digits (to_string n) n (to_string-All n) (digits_value-to_string n) h
parse_i64-int_to_string (negsuc n) h =
    unfold parse_i64 in ground (arith, digits_value-to_string (suc n))

-- The print of an integer: a digit, or a minus sign.
abbrev pub IsNumeral : ℕ → Type 0
IsNumeral c = (b'-' ≤ c) × (c ≤ b'9')

All-weaken : (s : Bytes) → All IsDigit s → All IsNumeral s
All-weaken [] h = tt
All-weaken (c ∷ s) h = (omega arith, All-weaken s h.1)

pub int_to_string-All : (i : ℤ) → All IsNumeral (int_to_string i)
unfolding int_to_string
int_to_string-All (pos n) = All-weaken (to_string n) (to_string-All n)
int_to_string-All (negsuc n) = (omega arith, All-weaken (to_string (suc n)) (to_string-All (suc n)))

IsDigit-IsAscii : (s : Bytes) → All IsDigit s → IsAscii s
IsDigit-IsAscii [] h = tt
IsDigit-IsAscii (c ∷ s) h = (omega arith, IsDigit-IsAscii s h.1)

pub to_string-IsAscii : (n : ℕ) → IsAscii (to_string n)
to_string-IsAscii n = IsDigit-IsAscii (to_string n) (to_string-All n)
