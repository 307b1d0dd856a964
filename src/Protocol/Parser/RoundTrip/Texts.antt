-- ===== src/Protocol/Parser/RoundTrip/Texts.antt =====
-- Lines and bulk bodies, as the encoder writes them, are read back.
use rustkv_lab.Prelude.{
  ℕ, ◌+◌, ◌*◌, ◌^◌, ◌≤◌, ◌<◌, ◌≡◌, ◌≢◌, refl, ap, ◌∙◌, true, some, [], ◌∷◌, ◌++◌, append_assoc,
  arith, Bytes, length, length-append, take-append, get_or-append_ge, All,
}
use rustkv_lab.Prelude.Int.{ℤ}
use rustkv_lab.Text.Utf8.{is_utf8, IsAscii, is_utf8_of_ascii}
use rustkv_lab.Text.Decimal.{to_string, int_to_string, parse_i64}
use rustkv_lab.Text.Decimal.RoundTrip.{IsI64, IsNumeral, int_to_string-All, parse_i64-int_to_string}
use rustkv_lab.Protocol.Resp.{
  RespValue, RespValues, simple_string, error, integer, bulk_string, array, null, nil, cons, count,
}
use rustkv_lab.Protocol.Encoder.{crlf}
use rustkv_lab.Protocol.Encoder.Wire.{wire, wire_values}
use rustkv_lab.Protocol.Parser.{
  RespParser, usize_limit, Parse, ok, ◌>>=◌, scan_line, read_line, read_bulk_bytes, parse_number,
  parse_simple_string, parse_error,
}
use rustkv_lab.Protocol.Parser.Consumed.{bulk_lem}

-- No carriage return that a line feed follows.
abbrev pub NoCrlf : Bytes → Type 0
NoCrlf [] = Unit
NoCrlf (a ∷ []) = Unit
NoCrlf (a ∷ b ∷ s) = ((a ≡ 13) → (b ≢ 10)) × NoCrlf (b ∷ s)

-- The values that the wire can carry: one-line UTF-8 texts, and 64-bit integers.
abbrev mutual
  pub IsWire : RespValue → Type 0
  IsWire (simple_string text) = (is_utf8 text ≡ true) × NoCrlf text
  IsWire (error text) = (is_utf8 text ≡ true) × NoCrlf text
  IsWire (integer i) = IsI64 i
  IsWire (bulk_string bytes) = Unit
  IsWire (array vs) = AreWire vs
  IsWire null = Unit

  pub AreWire : RespValues → Type 0
  AreWire nil = Unit
  AreWire (cons v vs) = IsWire v × AreWire vs

-- Far above any message, and far enough below 2 ^ 63 for the parser's own overflow tests.
abbrev pub message_limit : ℕ
message_limit = 2 ^ 59

pub scan_line-text :
    (text t : Bytes) → NoCrlf text → scan_line (text ++ (crlf ++ t)) ≡ some (text, t)
unfolding scan_line
scan_line-text [] t h = refl
scan_line-text (a ∷ []) t h = ground arith
scan_line-text (a ∷ b ∷ s) t h = ground (arith, scan_line-text (b ∷ s) t h.1, h.0)

pub NoCrlf-numeral : (s : Bytes) → All IsNumeral s → NoCrlf s
NoCrlf-numeral [] h = tt
NoCrlf-numeral (a ∷ []) h = tt
NoCrlf-numeral (a ∷ b ∷ s) h = (λ e. absurd (omega arith), NoCrlf-numeral (b ∷ s) h.1)

pub IsAscii-numeral : (s : Bytes) → All IsNumeral s → IsAscii s
IsAscii-numeral [] h = tt
IsAscii-numeral (a ∷ s) h = (omega arith, IsAscii-numeral s h.1)

pub read_line-text :
    (text t : Bytes) (n : ℕ)
    → NoCrlf text
    → read_line (record { rest = text ++ (crlf ++ t); pos = n })
      ≡ ok (text, record { rest = t; pos = n + length text + 2 })
unfolding read_line
read_line-text text t n h = rw (read_line, scan_line-text text t h)

pub parse_number_of :
    (s : Bytes) (i : ℤ) → is_utf8 s ≡ true → parse_i64 s ≡ some i → parse_number s ≡ ok i
unfolding parse_number parse_i64
parse_number_of [] i h e = cc
parse_number_of (c ∷ s) i h e = rw (h, e)

pub parse_number-int_to_string : (i : ℤ) → IsI64 i → parse_number (int_to_string i) ≡ ok i
parse_number-int_to_string i h =
    parse_number_of (int_to_string i) i
      (is_utf8_of_ascii _ (IsAscii-numeral _ (int_to_string-All i))) (parse_i64-int_to_string i h)

module _ (text t : Bytes) (n m : ℕ) where
  pub parse_simple_string-text :
      is_utf8 text ≡ true
      → NoCrlf text
      → m ≡ n + length text + 2
      → parse_simple_string (record { rest = text ++ (crlf ++ t); pos = n })
        ≡ ok (simple_string text, record { rest = t; pos = m })
  unfolding parse_simple_string
  parse_simple_string-text u h e = rw (parse_simple_string, read_line-text text t n h, u, e)

  pub parse_error-text :
      is_utf8 text ≡ true
      → NoCrlf text
      → m ≡ n + length text + 2
      → parse_error (record { rest = text ++ (crlf ++ t); pos = n })
        ≡ ok (error text, record { rest = t; pos = m })
  unfolding parse_error
  parse_error-text u h e = rw (parse_error, read_line-text text t n h, u, e)

-- A line that holds a printed number, and a body that depends on the number.
pub numbered :
    (body : ℤ → RespParser → Parse (RespValue × RespParser)) (i : ℤ) (t : Bytes) (n : ℕ)
    → IsI64 i
    → (read_line (record { rest = int_to_string i ++ (crlf ++ t); pos = n }) >>= λ (line, q).
        parse_number line >>= λ k. body k q)
      ≡ body i (record { rest = t; pos = n + length (int_to_string i) + 2 })
numbered body i t n h = rw (
  read_line-text (int_to_string i) t n (NoCrlf-numeral _ (int_to_string-All i)),
  parse_number-int_to_string i h,
)

pub read_bulk_bytes-text :
    (bytes t : Bytes) (n : ℕ)
    → n + length bytes + 2 < usize_limit
    → read_bulk_bytes (length bytes) (record { rest = bytes ++ (crlf ++ t); pos = n })
      ≡ ok (bytes, record { rest = t; pos = n + length bytes + 2 })
read_bulk_bytes-text bytes t n lt = rw (← append_assoc bytes crlf t) (
    bulk_lem (length bytes) n (bytes ++ crlf) t (omega (arith, length-append bytes crlf))
      (ground arith)
      (rw (
        get_or-append_ge bytes crlf (length bytes) 0 0 (omega arith),
        get_or-append_ge bytes crlf (length bytes + 1) 1 0 refl,
      ))
    ∙ ap (λ b. ok (b, record { rest = t; pos = n + length bytes + 2 })) (take-append bytes crlf))

pub length-line : (s t : Bytes) → length s + (2 + length t) ≡ length (s ++ (crlf ++ t))
length-line s t = omega (arith, length-append s (crlf ++ t))

pub length-line_end : (s : Bytes) → length s + 2 ≡ length (s ++ crlf)
length-line_end s = omega (arith, length-append s crlf)

pub wire-three : (v : RespValue) → 3 ≤ length (wire v)
unfolding wire
wire-three (simple_string text) = omega (arith, length-line_end text)
wire-three (error text) = omega (arith, length-line_end text)
wire-three (integer i) = omega (arith, length-line_end (int_to_string i))
wire-three (bulk_string bytes) =
    omega (arith, length-line (to_string (length bytes)) (bytes ++ crlf))
wire-three (array vs) = omega (arith, length-line (to_string (count vs)) (wire_values vs))
wire-three null = omega arith

-- An item takes three bytes or more.
pub count-le : (vs : RespValues) → 3 * count vs ≤ length (wire_values vs)
unfolding wire
count-le nil = omega arith
count-le (cons v vs) =
    omega (arith, wire-three v, count-le vs, length-append (wire v) (wire_values vs))
