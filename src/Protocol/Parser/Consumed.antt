-- ===== src/Protocol/Parser/Consumed.antt =====
-- A parser that succeeds has read a part of the input from the left, and what it read alone decides
-- its result. The fuel of `parse_value` is never spent, and each item takes a byte at least.
mod Amounts
mod Lines
use rustkv_lab.Prelude.{
  ℕ, zero, suc, ◌+◌, ◌*◌, ◌≤◌, ◌<◌, ◌≡◌, ◌≢◌, refl, sym, ap, ◌∙◌, Bool, true, false, some, [], ◌∷◌,
  ◌++◌, append_assoc, arith, Bytes, ltb, leb, ◌==◌, ◌&&◌, ltb-false, Bool-cases, Option-cases, ◌⊎◌,
  inl, inr, length, length-append, get_or, get_or-append_lt, take-append_le, drop-append, take,
  drop, take-append-drop, length-take_le, get_or-take, take-take, if◌then◌else◌,
}
use rustkv_lab.Prelude.Int.{ℤ, pos, negsuc}
use rustkv_lab.Text.Utf8.{is_utf8}
use rustkv_lab.Protocol.{ProtocolError, incomplete, invalid_utf8}
use rustkv_lab.Protocol.Resp.{
  RespFrame, simple_string, error, integer, bulk_string, array, null, nil, cons,
}
use rustkv_lab.Protocol.Parser.{
  RespParser, usize_limit, allocation_limit, resp_frame_size, bulk_overflow, bulk_unterminated,
  Parse, ok, err, panicked, out_of_fuel, ◌>>=◌, Parser, read_byte, scan_line, read_line,
  read_bulk_bytes, parse_number, parse_simple_string, parse_error, parse_integer, bulk_body,
  parse_bulk_string, parse_values, array_body, parse_array, parse_typed, parse_value,
}
use rustkv_lab.Protocol.Parser.Consumed.Amounts.{
  bind_rest, Takes-bind_at, Takes-bind, Takes-ok, Takes-err, Takes-if, Takes-weaken, Takes-lift,
}
use rustkv_lab.Protocol.Parser.Consumed.Lines.{
  scan_line-split, scan_line-cons, scan_line_inv, read_line_at, read_line-Takes, bulk_inv,
}
pub use rustkv_lab.Protocol.Parser.Consumed.Lines.{scan_line_any, bulk_lem}
pub use rustkv_lab.Protocol.Parser.Consumed.Amounts.{TakesAt, took, failed, panics, Takes}

read_byte_at : (s : Bytes) (n : ℕ) → Takes read_byte 1 (record { rest = s; pos = n })
unfolding read_byte
read_byte_at [] n = failed _
read_byte_at (b ∷ s) n =
    took b (record { rest = s; pos = n + 1 }) (b ∷ []) refl (omega arith) (omega arith) (λ t. refl)

read_byte-Takes : (p : RespParser) → Takes read_byte 1 p
read_byte-Takes p = read_byte_at p.rest p.pos

read_bulk_bytes-Takes : (len : ℕ) (p : RespParser) → Takes (read_bulk_bytes len) 0 p
read_bulk_bytes-Takes len p = elim (bulk_inv len p) [
  | inl (e, h) ↦ rw h (failed e)
  | inr (o, fits, c, h) ↦
      let used = take (len + 2) p.rest in
      let whole : used ++ drop (len + 2) p.rest ≡ p.rest = take-append-drop (len + 2) p.rest in
      let size : length used ≡ len + 2 = length-take_le (len + 2) p.rest fits in
      rw h (
        took (take len p.rest) (record { rest = drop (len + 2) p.rest; pos = p.pos + len + 2 }) used
          (sym whole) (omega arith) (omega arith)
          (λ t.
            bulk_lem len p.pos used t size o (
              rw
                (
                  get_or-take p.rest len (len + 2) 0 (omega arith),
                  get_or-take p.rest (len + 1) (len + 2) 0 (omega arith),
                )
                c)
            ∙ ap (λ l. ok (l, record { rest = t; pos = p.pos + len + 2 }))
                (take-take p.rest len (len + 2) (omega arith))))
]

parse_simple_string-Takes : (p : RespParser) → Takes parse_simple_string 0 p
unfolding parse_simple_string
parse_simple_string-Takes p = Takes-weaken 0 (omega arith) (
    Takes-bind read_line _ 2 0 p (read_line-Takes p) (λ line q lt.
      Takes-if q (is_utf8 line) (λ s. ok (simple_string line, s)) (λ s. err invalid_utf8)
        (Takes-ok q _) (failed _)))

parse_error-Takes : (p : RespParser) → Takes parse_error 0 p
unfolding parse_error
parse_error-Takes p = Takes-weaken 0 (omega arith) (
    Takes-bind read_line _ 2 0 p (read_line-Takes p) (λ line q lt.
      Takes-if q (is_utf8 line) (λ s. ok (error line, s)) (λ s. err invalid_utf8) (Takes-ok q _)
        (failed _)))

parse_number-returns : (line : Bytes) → parse_number line ≢ out_of_fuel
unfolding parse_number
parse_number-returns [] = ground arith
parse_number-returns (c ∷ s) = ground arith

-- A line that holds a number, and a body that depends on the number.
numbered-Takes :
    (body : ℤ → Parser RespFrame) (p : RespParser)
    → ((i : ℤ) (q : RespParser) → length q.rest ≤ length p.rest → Takes (body i) 0 q)
    → Takes (λ s. read_line s >>= λ (line, q). parse_number line >>= λ i. body i q) 0 p
numbered-Takes body p h = Takes-weaken 0 (omega arith) (
    Takes-bind read_line _ 2 0 p (read_line-Takes p) (λ line q lt.
      Takes-lift (parse_number line) body q (parse_number-returns line) (λ i. h i q (omega arith))))

bulk_body-Takes : (len : ℤ) (p : RespParser) → Takes (bulk_body len) 0 p
unfolding bulk_body
bulk_body-Takes (negsuc zero) p = Takes-ok p null
bulk_body-Takes (negsuc (suc n)) p = failed _
bulk_body-Takes (pos len) p =
    Takes-bind (read_bulk_bytes len) _ 0 0 p (read_bulk_bytes-Takes len p)
      (λ bytes q lt. Takes-ok q (bulk_string bytes))

-- `value` takes a byte or more wherever fewer than `bound` bytes are left.
module _ (value : Parser RespFrame) (bound : ℕ)
    (takes : (q : RespParser) → length q.rest < bound → Takes value 1 q) where
  parse_values-Takes :
      (len : ℕ) (p : RespParser) → length p.rest < bound → Takes (parse_values value len) 0 p
  unfolding parse_values
  parse_values-Takes zero p lt = Takes-ok p nil
  parse_values-Takes (suc len) p lt = Takes-weaken 0 (omega arith) (
      Takes-bind value _ 1 0 p (takes p lt) (λ v q le.
        Takes-bind (parse_values value len) _ 0 0 q (parse_values-Takes len q (omega arith))
          (λ vs r le'. Takes-ok r (cons v vs))))

  array_body-Takes :
      (len : ℤ) (p : RespParser) → length p.rest < bound → Takes (array_body value len) 0 p
  unfolding array_body
  array_body-Takes (negsuc zero) p lt = Takes-ok p null
  array_body-Takes (negsuc (suc n)) p lt = failed _
  array_body-Takes (pos len) p lt =
      Takes-if p (leb allocation_limit (len * resp_frame_size)) (λ q. panicked)
        (λ q. parse_values value len q >>= λ (vs, r). ok (array vs, r)) panics
        (Takes-bind (parse_values value len) _ 0 0 p (parse_values-Takes len p lt)
          (λ vs r le. Takes-ok r (array vs)))

  parse_typed-Takes :
      (type_byte : ℕ) (p : RespParser)
      → length p.rest < bound
      → Takes (parse_typed value type_byte) 0 p
  unfolding parse_typed parse_integer parse_bulk_string parse_array
  parse_typed-Takes type_byte p lt =
      Takes-if p (type_byte == b'+') _ _ (parse_simple_string-Takes p) (
        Takes-if p (type_byte == b'-') _ _ (parse_error-Takes p) (
          Takes-if p (type_byte == b':') _ _
            (numbered-Takes (λ i q. ok (integer i, q)) p (λ i q le. Takes-ok q (integer i)))
            (Takes-if p (type_byte == b'$') _ _
              (numbered-Takes bulk_body p (λ i q le. bulk_body-Takes i q))
              (Takes-if p (type_byte == b'*') _ _
                (numbered-Takes (array_body value) p (λ i q le. array_body-Takes i q (omega arith)))
                (failed _)))))

pub parse_value-Takes : (f : ℕ) (p : RespParser) → length p.rest < f → Takes (parse_value f) 1 p
unfolding parse_value
parse_value-Takes zero p lt = elim lt [ ]
parse_value-Takes (suc f) p lt =
    Takes-bind read_byte _ 1 0 p (read_byte-Takes p)
      (λ b q le. parse_typed-Takes (parse_value f) f (parse_value-Takes f) b q (omega arith))
