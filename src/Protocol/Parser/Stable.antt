-- ===== src/Protocol/Parser/Stable.antt =====
-- What the parser has decided on a part of the input it decides on every longer input: a frame, an
-- error and a panic stay, and only `incomplete` can change.
use rustkv_lab.Prelude.{
  ℕ, zero, suc, ◌+◌, ◌≤◌, ◌≡◌, refl, Bool, true, false, some, [], ◌∷◌, ◌++◌, append-nil, arith,
  Bytes, ltb, leb, ltb-false, Bool-cases, Option-cases, inl, inr, length, length-append,
  get_or-append_lt, take-append_le, drop, drop-append_le, if◌then◌else◌,
}
use rustkv_lab.Prelude.Int.{ℤ, pos, negsuc}
use rustkv_lab.Protocol.{ProtocolError, incomplete}
use rustkv_lab.Protocol.Resp.{RespFrame}
use rustkv_lab.Protocol.Parser.{
  RespParser, usize_limit, Parse, ok, err, panicked, out_of_fuel, ◌>>=◌, Parser, read_byte,
  scan_line, read_line, read_bulk_bytes, parse_number, parse_simple_string, parse_error,
  parse_integer, bulk_body, parse_bulk_string, parse_values, array_body, parse_array, parse_typed,
  parse_value,
}

abbrev pub extend : Bytes → RespParser → RespParser
extend more p = record p { rest = p.rest ++ more }

-- `r` is the outcome on the short input, `r'` on the long one.
pub data Keeps {A : Type 0} (more : Bytes) (r' : Parse (A × RespParser))
    : Parse (A × RespParser) → Type 0 where
  kept : (a : A) (p : RespParser) → r' ≡ ok (a, extend more p) → Keeps more r' (ok (a, p))
  waits : (more ≡ [] → r' ≡ err incomplete) → Keeps more r' (err incomplete)
  fails : (e : ProtocolError) → r' ≡ err e → Keeps more r' (err e)
  panics : r' ≡ panicked → Keeps more r' panicked
  spent : Keeps more r' out_of_fuel

abbrev KeepsAll : {A : Type 0} → Bytes → Parser A → Parser A → Type 0
KeepsAll more m' m = (p : RespParser) → Keeps more (m' (extend more p)) (m p)

module _ {A B : Type 0} {more : Bytes} where
  Keeps-bind :
      {r r' : Parse (A × RespParser)} (f f' : A × RespParser → Parse (B × RespParser))
      → Keeps more r' r
      → ((a : A) (p : RespParser) → Keeps more (f' (a, extend more p)) (f (a, p)))
      → Keeps more (r' >>= f') (r >>= f)
  Keeps-bind f f' (kept a p e) k = rw e (k a p)
  Keeps-bind f f' (waits e) k = waits (λ h. rw (e h))
  Keeps-bind f f' (fails x e) k = rw e (fails x refl)
  Keeps-bind f f' (panics e) k = rw e (panics refl)
  Keeps-bind f f' spent k = spent

  Keeps-lift :
      (m : Parse A) (f f' : A → Parse (B × RespParser))
      → ((a : A) → Keeps more (f' a) (f a))
      → Keeps more (m >>= f') (m >>= f)
  Keeps-lift (ok a) f f' k = k a
  Keeps-lift (err e) f f' k = fails e refl
  Keeps-lift panicked f f' k = panics refl
  Keeps-lift out_of_fuel f f' k = spent

module _ {B : Type 0} {more : Bytes} where
  Keeps-if :
      (b : Bool) {x y x' y' : Parse (B × RespParser)}
      → Keeps more x' x
      → Keeps more y' y
      → Keeps more (if b then x' else y') (if b then x else y)
  Keeps-if true kx ky = kx
  Keeps-if false kx ky = ky

module _ (more : Bytes) where
  read_byte_at :
      (s : Bytes) (n : ℕ)
      → Keeps more
          (read_byte (record { rest = s ++ more; pos = n }))
          (read_byte (record { rest = s; pos = n }))
  unfolding read_byte
  read_byte_at [] n = waits (λ h. rw h)
  read_byte_at (b ∷ s) n = kept b (record { rest = s; pos = n + 1 }) refl

  read_byte-Keeps : KeepsAll more read_byte read_byte
  read_byte-Keeps p = read_byte_at p.rest p.pos

  scan_line-append :
      (s line after : Bytes)
      → scan_line s ≡ some (line, after)
      → scan_line (s ++ more) ≡ some (line, after ++ more)
  unfolding scan_line
  scan_line-append [] line after h = cc
  scan_line-append (a ∷ []) line after h = cc
  scan_line-append (a ∷ b ∷ s) line after h = elim (Option-cases (scan_line (b ∷ s))) [
    | inl e ↦ ground (arith, e)
    | inr (x, e) ↦ ground (arith, e, scan_line-append (b ∷ s) x.0 x.1 e)
  ]

  read_line-Keeps : KeepsAll more read_line read_line
  unfolding read_line
  read_line-Keeps p = elim (Option-cases (scan_line p.rest)) [
    | inl e ↦ rw (read_line, e) (waits (λ h. rw (h, append-nil, read_line, e)))
    | inr (x, e) ↦
        rw (read_line, scan_line-append p.rest x.0 x.1 e, e)
          (kept x.0 (record { rest = x.1; pos = p.pos + length x.0 + 2 }) refl)
  ]

  longer_fits :
      (n len : ℕ) (s : Bytes)
      → ltb (n + length s) (n + len + 2) ≡ false
      → ltb (n + length (s ++ more)) (n + len + 2) ≡ false
  longer_fits n len s h = ground (arith, length-append s more)

  read_bulk_bytes-Keeps : (len : ℕ) → KeepsAll more (read_bulk_bytes len) (read_bulk_bytes len)
  unfolding read_bulk_bytes
  read_bulk_bytes-Keeps len p = Keeps-if (leb usize_limit (p.pos + len)) (fails _ refl) (
      Keeps-if (leb usize_limit (p.pos + len + 2)) (fails _ refl)
        (elim (Bool-cases (ltb (p.pos + length p.rest) (p.pos + len + 2))) [
          | inl short ↦ rw short (waits (λ h. rw (h, append-nil, short)))
          | inr fits ↦
              let long : len + 2 ≤ length p.rest = omega (arith, ltb-false _ _ fits) in
              rw
                (
                  fits,
                  longer_fits p.pos len p.rest fits,
                  get_or-append_lt p.rest more len 0 (omega arith),
                  get_or-append_lt p.rest more (len + 1) 0 (omega arith),
                  take-append_le len p.rest more (omega arith),
                  drop-append_le (len + 2) p.rest more long,
                )
                (Keeps-if _ (fails _ refl)
                  (kept _ (record { rest = drop (len + 2) p.rest; pos = p.pos + len + 2 }) refl))
        ]))

  parse_simple_string-Keeps : KeepsAll more parse_simple_string parse_simple_string
  unfolding parse_simple_string
  parse_simple_string-Keeps p =
      Keeps-bind _ _ (read_line-Keeps p) (λ line q. Keeps-if _ (kept _ q refl) (fails _ refl))

  parse_error-Keeps : KeepsAll more parse_error parse_error
  unfolding parse_error
  parse_error-Keeps p =
      Keeps-bind _ _ (read_line-Keeps p) (λ line q. Keeps-if _ (kept _ q refl) (fails _ refl))

  parse_integer-Keeps : KeepsAll more parse_integer parse_integer
  unfolding parse_integer
  parse_integer-Keeps p =
      Keeps-bind _ _ (read_line-Keeps p)
        (λ line q. Keeps-lift (parse_number line) _ _ (λ i. kept _ q refl))

  bulk_body-Keeps : (len : ℤ) → KeepsAll more (bulk_body len) (bulk_body len)
  unfolding bulk_body
  bulk_body-Keeps (negsuc zero) q = kept _ q refl
  bulk_body-Keeps (negsuc (suc n)) q = fails _ refl
  bulk_body-Keeps (pos len) q =
      Keeps-bind _ _ (read_bulk_bytes-Keeps len q) (λ bytes r. kept _ r refl)

  parse_bulk_string-Keeps : KeepsAll more parse_bulk_string parse_bulk_string
  unfolding parse_bulk_string
  parse_bulk_string-Keeps p =
      Keeps-bind _ _ (read_line-Keeps p)
        (λ line q. Keeps-lift (parse_number line) _ _ (λ len. bulk_body-Keeps len q))

  module _ (value' value : Parser RespFrame) (keeps : KeepsAll more value' value) where
    parse_values-Keeps :
        (len : ℕ) → KeepsAll more (parse_values value' len) (parse_values value len)
    unfolding parse_values
    parse_values-Keeps zero p = kept _ p refl
    parse_values-Keeps (suc len) p =
        Keeps-bind _ _ (keeps p)
          (λ v q. Keeps-bind _ _ (parse_values-Keeps len q) (λ vs r. kept _ r refl))

    array_body-Keeps : (len : ℤ) → KeepsAll more (array_body value' len) (array_body value len)
    unfolding array_body
    array_body-Keeps (negsuc zero) q = kept _ q refl
    array_body-Keeps (negsuc (suc n)) q = fails _ refl
    array_body-Keeps (pos len) q =
        Keeps-if _ (panics refl) (Keeps-bind _ _ (parse_values-Keeps len q) (λ vs r. kept _ r refl))

    parse_array-Keeps : KeepsAll more (parse_array value') (parse_array value)
    unfolding parse_array
    parse_array-Keeps p =
        Keeps-bind _ _ (read_line-Keeps p)
          (λ line q. Keeps-lift (parse_number line) _ _ (λ len. array_body-Keeps len q))

    parse_typed-Keeps :
        (type_byte : ℕ) → KeepsAll more (parse_typed value' type_byte) (parse_typed value type_byte)
    unfolding parse_typed
    parse_typed-Keeps type_byte p = Keeps-if _ (parse_simple_string-Keeps p) (
        Keeps-if _ (parse_error-Keeps p) (
          Keeps-if _ (parse_integer-Keeps p) (
            Keeps-if _ (parse_bulk_string-Keeps p)
              (Keeps-if _ (parse_array-Keeps p) (fails _ refl)))))

  pub parse_value-Keeps : (f g : ℕ) → f ≤ g → KeepsAll more (parse_value g) (parse_value f)
  unfolding parse_value
  parse_value-Keeps zero g h p = spent
  parse_value-Keeps (suc f) zero h p = elim h [ ]
  parse_value-Keeps (suc f) (suc g) h p = Keeps-bind _ _ (read_byte-Keeps p) (λ b q.
      parse_typed-Keeps (parse_value g) (parse_value f) (parse_value-Keeps f g (omega arith)) b q)
