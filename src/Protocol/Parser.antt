-- ===== src/Protocol/Parser.antt =====
-- `parser.rs`. The state is the position and what is unread from it on: `input[pos..]`.
pub mod Stable
pub mod Consumed
pub mod Decides
pub mod RoundTrip
use rustkv_lab.Prelude.{
  ℕ, zero, suc, ◌+◌, ◌*◌, ◌^◌, ◌≡◌, refl, not, ◌&&◌, Option, none, some, [], ◌∷◌, ◌++◌, Bytes, ltb,
  leb, ◌==◌, if◌then◌else◌, length, get_or, take, drop,
}
use rustkv_lab.Prelude.Int.{ℤ, pos, negsuc}
use rustkv_lab.Text.{codes}
use rustkv_lab.Text.Utf8.{is_utf8}
use rustkv_lab.Text.Decimal.{parse_i64}
use rustkv_lab.Protocol.{
  ProtocolError, incomplete, invalid_type_byte, invalid_integer, invalid_utf8, invalid_format,
}
use rustkv_lab.Protocol.Resp.{
  RespFrame, RespValues, simple_string, error, integer, bulk_string, array, null, nil, cons,
}

pub record RespParser : Type 0 where
  pub rest : Bytes
  pub pos : ℕ

-- `panicked` is a panic of the thread; `out_of_fuel` has no counterpart in the program.
pub data Parse {ℓ} (A : Type ℓ) : Type ℓ where
  ok : A → Parse A
  err : ProtocolError → Parse A
  panicked out_of_fuel : Parse A

infixl 5 ◌>>=◌
abbrev pub ◌>>=◌ {ℓ κ} : {A : Type ℓ} {B : Type κ} → Parse A → (A → Parse B) → Parse B
ok a >>= f = f a
err e >>= f = err e
panicked >>= f = panicked
out_of_fuel >>= f = out_of_fuel

abbrev pub Parser {ℓ} : Type ℓ → Type ℓ
Parser A = RespParser → Parse (A × RespParser)

-- A `usize` is below this, and no allocation has this many bytes or more.
abbrev pub usize_limit : ℕ
usize_limit = 2 ^ 64

abbrev pub allocation_limit : ℕ
allocation_limit = 2 ^ 63

-- `size_of::<RespFrame>()` on a 64-bit target: the largest variant is a `Vec`.
abbrev pub resp_frame_size : ℕ
resp_frame_size = 24

pub read_byte : Parser ℕ
read_byte p = elim p.rest [
  | [] ↦ err incomplete
  | b ∷ s ↦ ok (b, record { rest = s; pos = p.pos + 1 })
]

abbrev pub prepend : ℕ → Option (Bytes × Bytes) → Option (Bytes × Bytes)
prepend a none = none
prepend a (some (line, after)) = some (a ∷ line, after)

-- The loop of `read_line`: the bytes before the first CR LF, and those behind it.
pub scan_line : Bytes → Option (Bytes × Bytes)
scan_line [] = none
scan_line (a ∷ []) = none
scan_line (a ∷ b ∷ s) = if a == 13 && b == 10 then some ([], s) else prepend a (scan_line (b ∷ s))

pub read_line : Parser Bytes
read_line p = elim (scan_line p.rest) [
  | none ↦ err incomplete
  | some (line, after) ↦ ok (line, record { rest = after; pos = p.pos + length line + 2 })
]

abbrev pub bulk_overflow : ProtocolError
bulk_overflow = invalid_format (codes "bulk string overflow")

abbrev pub bulk_unterminated : ProtocolError
bulk_unterminated = invalid_format (codes "bulk string is not terminated by CRLF")

pub read_bulk_bytes : ℕ → Parser Bytes
read_bulk_bytes len p =
    let end = p.pos + len in
    let crlf_end = end + 2 in
    if leb usize_limit end
    then err bulk_overflow
    else if leb usize_limit crlf_end
    then err bulk_overflow
    else if ltb (p.pos + length p.rest) crlf_end
    then err incomplete
    else if not (get_or p.rest len 0 == 13 && get_or p.rest (len + 1) 0 == 10)
    then err bulk_unterminated
    else ok (take len p.rest, record { rest = drop (len + 2) p.rest; pos = crlf_end })

abbrev number_or_invalid : Option ℤ → Parse ℤ
number_or_invalid none = err invalid_integer
number_or_invalid (some i) = ok i

-- `RespParser::parse_i64`
pub parse_number : Bytes → Parse ℤ
parse_number bytes =
    if not (is_utf8 bytes)
    then err invalid_integer
    else elim bytes [ [] ↦ err invalid_integer | c ∷ s ↦ number_or_invalid (parse_i64 (c ∷ s)) ]

pub parse_simple_string : Parser RespFrame
parse_simple_string p = read_line p >>= λ (line, q).
    if is_utf8 line then ok (simple_string line, q) else err invalid_utf8

pub parse_error : Parser RespFrame
parse_error p =
    read_line p >>= λ (line, q). if is_utf8 line then ok (error line, q) else err invalid_utf8

pub parse_integer : Parser RespFrame
parse_integer p = read_line p >>= λ (line, q). parse_number line >>= λ value. ok (integer value, q)

pub bulk_body : ℤ → Parser RespFrame
bulk_body (negsuc zero) q = ok (null, q)
bulk_body (negsuc (suc n)) q =
    err (invalid_format (codes "bulk string length must be -1 or non-negative"))
bulk_body (pos len) q = read_bulk_bytes len q >>= λ (bytes, r). ok (bulk_string bytes, r)

pub parse_bulk_string : Parser RespFrame
parse_bulk_string p = read_line p >>= λ (line, q). parse_number line >>= λ len. bulk_body len q

-- `for _ in 0..len { values.push(self.parse_value()?); }`
pub parse_values : Parser RespFrame → ℕ → Parser RespValues
parse_values value zero p = ok (nil, p)
parse_values value (suc len) p =
    value p >>= λ (v, q). parse_values value len q >>= λ (vs, r). ok (cons v vs, r)

-- `Vec::with_capacity(len)` panics when the items would not fit in an allocation.
pub array_body : Parser RespFrame → ℤ → Parser RespFrame
array_body value (negsuc zero) q = ok (null, q)
array_body value (negsuc (suc n)) q =
    err (invalid_format (codes "array length must be -1 or non-negative"))
array_body value (pos len) q =
    if leb allocation_limit (len * resp_frame_size)
    then panicked
    else parse_values value len q >>= λ (vs, r). ok (array vs, r)

pub parse_array : Parser RespFrame → Parser RespFrame
parse_array value p =
    read_line p >>= λ (line, q). parse_number line >>= λ len. array_body value len q

-- The `match type_byte` of `parse_value`; `value` parses the items of an array.
pub parse_typed : Parser RespFrame → ℕ → Parser RespFrame
parse_typed value type_byte p =
    if type_byte == b'+'
    then parse_simple_string p
    else if type_byte == b'-'
    then parse_error p
    else if type_byte == b':'
    then parse_integer p
    else if type_byte == b'$'
    then parse_bulk_string p
    else if type_byte == b'*'
    then parse_array value p
    else err (invalid_type_byte type_byte)

-- The fuel bounds how deep arrays are nested.
pub parse_value : ℕ → Parser RespFrame
parse_value zero p = out_of_fuel
parse_value (suc fuel) p =
    read_byte p >>= λ (type_byte, q). parse_typed (parse_value fuel) type_byte q

unfoldable pub parse_resp : Bytes → Parse (RespFrame × ℕ)
unfolding read_byte scan_line read_line read_bulk_bytes parse_number parse_simple_string parse_error
    parse_integer bulk_body parse_bulk_string parse_values array_body parse_array parse_typed
    parse_value
parse_resp input =
    parse_value (suc (length input)) (record { rest = input; pos = 0 }) >>= λ (value, p).
    ok (value, p.pos)

parse_ping :
    parse_resp (codes "*1" ++ (13 ∷ 10 ∷ []) ++ codes "+PING" ++ (13 ∷ 10 ∷ []) ++ codes "x")
    ≡ ok (array (cons (simple_string (codes "PING")) nil), 11)
unfolding parse_resp parse_i64 is_utf8
parse_ping = refl
