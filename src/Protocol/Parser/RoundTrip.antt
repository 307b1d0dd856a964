-- ===== src/Protocol/Parser/RoundTrip.antt =====
-- What the encoder writes the parser reads back, before any rest.
mod Texts
use rustkv_lab.Prelude.{
  ℕ, zero, suc, ◌+◌, ◌*◌, ◌^◌, ◌≤◌, ◌<◌, ◌≡◌, ◌≢◌, refl, sym, ap, ◌∙◌, true, false, some, [], ◌∷◌,
  ◌++◌, append_assoc, arith, Bytes, leb, length, length-append, take-append, get_or-append_ge, All,
}
use rustkv_lab.Prelude.Int.{ℤ, pos, negsuc}
use rustkv_lab.Text.Utf8.{is_utf8, IsAscii, is_utf8_of_ascii}
use rustkv_lab.Text.Decimal.{to_string, int_to_string, parse_i64}
use rustkv_lab.Text.Decimal.RoundTrip.{IsI64, IsNumeral, int_to_string-All, parse_i64-int_to_string}
use rustkv_lab.Protocol.Resp.{
  RespValue, RespValues, simple_string, error, integer, bulk_string, array, null, nil, cons, count,
}
use rustkv_lab.Protocol.Encoder.{crlf, encode_resp}
use rustkv_lab.Protocol.Encoder.Wire.{wire, wire_values, encode_resp-wire}
use rustkv_lab.Protocol.Parser.{
  RespParser, usize_limit, allocation_limit, resp_frame_size, Parse, Parser, ok, ◌>>=◌, read_byte,
  scan_line, read_line, read_bulk_bytes, parse_number, parse_simple_string, parse_error,
  parse_integer, bulk_body, parse_bulk_string, parse_values, array_body, parse_array, parse_typed,
  parse_value, parse_resp,
}
use rustkv_lab.Protocol.Parser.Consumed.{bulk_lem}
use rustkv_lab.Protocol.Parser.RoundTrip.Texts.{
  scan_line-text, NoCrlf-numeral, IsAscii-numeral, read_line-text, parse_number_of,
  parse_number-int_to_string, parse_simple_string-text, parse_error-text, numbered,
  read_bulk_bytes-text, length-line, length-line_end, wire-three, count-le,
}
pub use rustkv_lab.Protocol.Parser.RoundTrip.Texts.{NoCrlf, IsWire, AreWire, message_limit}

-- `value` reads `v` back before any rest, from any position.
abbrev ReadsBack : Parser RespValue → RespValue → Type 0
ReadsBack value v =
    (n m : ℕ) (t : Bytes)
    → m ≡ n + length (wire v)
    → m < message_limit
    → value (record { rest = wire v ++ t; pos = n }) ≡ ok (v, record { rest = t; pos = m })

module _ (value : Parser RespValue) (f : ℕ)
    (back : (v : RespValue) → IsWire v → length (wire v) < f → ReadsBack value v) where
  values_back :
      (vs : RespValues) (n m : ℕ) (t : Bytes)
      → AreWire vs
      → length (wire_values vs) < f
      → m ≡ n + length (wire_values vs)
      → m < message_limit
      → parse_values value (count vs) (record { rest = wire_values vs ++ t; pos = n })
        ≡ ok (vs, record { rest = t; pos = m })
  unfolding parse_values wire
  values_back nil n m t w lt e fits = ap (λ k. ok (nil, record { rest = t; pos = k })) (omega arith)
  values_back (cons v vs) n m t w lt e fits =
      let size = length-append (wire v) (wire_values vs) in
      rw (
        append_assoc (wire v) (wire_values vs) t,
        back v w.0 (omega (arith, size)) n (n + length (wire v)) (wire_values vs ++ t) refl
            (omega (arith, size)),
        values_back vs (n + length (wire v)) m t w.1 (omega (arith, size)) (omega (arith, size))
            fits,
      )

  array_back :
      (vs : RespValues) (n m : ℕ) (t : Bytes)
      → AreWire vs
      → length (wire_values vs) < f
      → m ≡ n + length (wire_values vs)
      → m < message_limit
      → array_body value (pos (count vs)) (record { rest = wire_values vs ++ t; pos = n })
        ≡ ok (array vs, record { rest = t; pos = m })
  unfolding array_body
  array_back vs n m t w lt e fits =
      rw (capacity_fits vs (omega arith), values_back vs n m t w lt e fits)
    where
      capacity_fits :
          (us : RespValues)
          → length (wire_values us) < message_limit
          → leb allocation_limit (count us * resp_frame_size) ≡ false
      capacity_fits us h = ground (arith, count-le us)

int_to_string-pos : (k : ℕ) → int_to_string (pos k) ≡ to_string k
unfolding int_to_string
int_to_string-pos k = refl

numbered_pos :
    (body : ℤ → RespParser → Parse (RespValue × RespParser)) (k : ℕ) (t : Bytes) (n : ℕ)
    → k < 2 ^ 63
    → (read_line (record { rest = to_string k ++ (crlf ++ t); pos = n }) >>= λ (line, q).
        parse_number line >>= λ i. body i q)
      ≡ body (pos k) (record { rest = t; pos = n + length (to_string k) + 2 })
numbered_pos body k t n h = rw (← int_to_string-pos k) (numbered body (pos k) t n h)

integer_back :
    (i : ℤ) (n m : ℕ) (t : Bytes)
    → IsI64 i
    → m ≡ n + length (int_to_string i) + 2
    → parse_integer (record { rest = int_to_string i ++ (crlf ++ t); pos = n })
      ≡ ok (integer i, record { rest = t; pos = m })
unfolding parse_integer
integer_back i n m t w e =
    numbered (λ k q. ok (integer k, q)) i t n w
    ∙ ap (λ k. ok (integer i, record { rest = t; pos = k })) (sym e)

bulk_back :
    (bytes : Bytes) (n m : ℕ) (t : Bytes)
    → m ≡ n + length (to_string (length bytes)) + length bytes + 4
    → m < message_limit
    → parse_bulk_string
        (record { rest = to_string (length bytes) ++ (crlf ++ (bytes ++ (crlf ++ t))); pos = n })
      ≡ ok (bulk_string bytes, record { rest = t; pos = m })
unfolding parse_bulk_string bulk_body
bulk_back bytes n m t e fits =
    let k = n + length (to_string (length bytes)) + 2 in
    numbered_pos bulk_body (length bytes) (bytes ++ (crlf ++ t)) n (omega arith)
    ∙ ap (λ r. r >>= λ (b, q). ok (bulk_string b, q)) (read_bulk_bytes-text bytes t k (omega arith))
    ∙ ap (λ j. ok (bulk_string bytes, record { rest = t; pos = j })) (omega arith)

null_back :
    (n m : ℕ) (t : Bytes)
    → m ≡ n + 4
    → parse_bulk_string (record { rest = b'-' ∷ b'1' ∷ 13 ∷ 10 ∷ t; pos = n })
      ≡ ok (null, record { rest = t; pos = m })
unfolding parse_bulk_string bulk_body int_to_string
null_back n m t e =
    numbered bulk_body (negsuc 0) t n (omega arith)
    ∙ ap (λ j. ok (null, record { rest = t; pos = j })) (omega arith)

value_back : (f : ℕ) (v : RespValue) → IsWire v → length (wire v) < f → ReadsBack (parse_value f) v
unfolding parse_value read_byte parse_typed parse_array wire
value_back zero v w lt n m t e fits = elim lt [ ]
value_back (suc f) (simple_string text) w lt n m t e fits =
    rw (append_assoc text crlf t)
      (parse_simple_string-text text t (n + 1) m w.0 w.1 (omega (arith, length-line_end text)))
value_back (suc f) (error text) w lt n m t e fits =
    rw (append_assoc text crlf t)
      (parse_error-text text t (n + 1) m w.0 w.1 (omega (arith, length-line_end text)))
value_back (suc f) (integer i) w lt n m t e fits =
    rw (append_assoc (int_to_string i) crlf t)
      (integer_back i (n + 1) m t w (omega (arith, length-line_end (int_to_string i))))
value_back (suc f) (bulk_string bytes) w lt n m t e fits =
    rw
      (
        append_assoc (to_string (length bytes)) (crlf ++ (bytes ++ crlf)) t,
        append_assoc bytes crlf t,
      )
      (bulk_back bytes (n + 1) m t
        (omega
          (arith, length-line (to_string (length bytes)) (bytes ++ crlf), length-line_end bytes))
        fits)
value_back (suc f) (array vs) w lt n m t e fits =
    let size = length-line (to_string (count vs)) (wire_values vs) in
    rw (append_assoc (to_string (count vs)) (crlf ++ wire_values vs) t) (
      numbered_pos (array_body (parse_value f)) (count vs) (wire_values vs ++ t) (n + 1)
        (omega (arith, count-le vs, size))
      ∙ array_back (parse_value f) f (value_back f) vs _ m t w (omega (arith, size))
          (omega (arith, size)) fits)
value_back (suc f) null w lt n m t e fits = null_back (n + 1) m t (omega arith)

-- A value that the wire can carry (one-line UTF-8 texts, 64-bit integers, an encoding below 2^59
-- bytes) is read back from its encoding, before any rest, and exactly its encoding is consumed.
pub parse_resp-encode_resp :
    (v : RespValue) (rest : Bytes)
    → IsWire v
    → length (encode_resp v) < message_limit
    → parse_resp (encode_resp v ++ rest) ≡ ok (v, length (encode_resp v))
parse_resp-encode_resp v rest w fits = rw encode_resp-wire (
    unfold parse_resp in
    rw (
      value_back (suc (length (wire v ++ rest))) v w (omega (arith, length-append (wire v) rest)) 0
        (length (wire v)) rest (omega arith) (rw encode_resp-wire at fits)))
