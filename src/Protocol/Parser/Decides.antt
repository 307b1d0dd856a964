-- ===== src/Protocol/Parser/Decides.antt =====
-- `parse_resp` returns on every input, and its frames are prefixes of the input that decide alone.
use rustkv_lab.Prelude.{
  ℕ, suc, ◌≤◌, ◌<◌, ◌≡◌, ◌≢◌, refl, sym, ap, ap₂, ◌∙◌, ◌⊎◌, [], ◌++◌, arith, Bytes, length,
  length-append, take, drop, take-append, take-append-drop, length-take_min, inl, inr,
}
use rustkv_lab.Protocol.{incomplete}
use rustkv_lab.Protocol.Resp.{RespFrame}
use rustkv_lab.Protocol.Parser.{
  RespParser, Parse, ok, err, panicked, out_of_fuel, ◌>>=◌, parse_value, parse_resp,
}
use rustkv_lab.Protocol.Parser.Stable.{Keeps, kept, waits, fails, panics, spent, parse_value-Keeps}
use rustkv_lab.Protocol.Parser.Consumed.{TakesAt, took, failed, parse_value-Takes}

abbrev start : Bytes → RespParser
start input = record { rest = input; pos = 0 }

abbrev consumed : RespFrame × RespParser → Parse (RespFrame × ℕ)
consumed (v, p) = ok (v, p.pos)

unfold_parse :
    (input : Bytes)
    → parse_resp input ≡ (parse_value (suc (length input)) (start input) >>= consumed)
unfolding parse_resp
unfold_parse input = refl

-- The frame at the front of the input: its bytes, and what they decide.
record Front (v : RespFrame) (n : ℕ) (input : Bytes) (f : ℕ) : Type 0 where
  used : Bytes
  after : Bytes
  splits : input ≡ used ++ after
  size : n ≡ length used
  some_byte : 1 ≤ length used
  alone : (t : Bytes) → parse_value f (start (used ++ t)) ≡ ok (v, record { rest = t; pos = n })

Front-at :
    (f : ℕ) (input : Bytes) (v : RespFrame) (n : ℕ) {r : Parse (RespFrame × RespParser)}
    → TakesAt (parse_value f) 1 (start input) r
    → (r >>= consumed) ≡ ok (v, n)
    → Front v n input f
Front-at f input v n (took a q used e1 e2 e3 h) e =
    let same_value : a ≡ v = cc in
    let same_pos : q.pos ≡ n = cc in
    record {
      used = used;
      after = q.rest;
      splits = e1;
      size = omega (arith, e2, same_pos);
      some_byte = e3;
      alone = λ t. h t ∙ ap₂ (λ w k. ok (w, record { rest = t; pos = k })) same_value same_pos;
    }
Front-at f input v n (failed x) e = cc
Front-at f input v n TakesAt.panics e = cc

returns_at :
    (f : ℕ) {p : RespParser} {r : Parse (RespFrame × RespParser)}
    → TakesAt (parse_value f) 1 p r
    → (r >>= consumed) ≢ out_of_fuel
returns_at f (took a q used e1 e2 e3 h) = cc
returns_at f (failed x) = cc
returns_at f TakesAt.panics = cc

-- The parser's recursion ends on every input, since each level takes a byte: the fuel, one more
-- than the bytes of the input, is not spent. It ends with a frame, an error, or the panic of an
-- allocation that is too large; that the stack is deep enough for the levels is not stated.
pub parse_resp-returns : (input : Bytes) → parse_resp input ≢ out_of_fuel
parse_resp-returns input =
    rw (unfold_parse input)
      (returns_at _ (parse_value-Takes (suc (length input)) (start input) (omega arith)))

front :
    (input : Bytes) (v : RespFrame) (n : ℕ)
    → parse_resp input ≡ ok (v, n)
    → Front v n input (suc (length input))
front input v n e =
    Front-at (suc (length input)) input v n
      (parse_value-Takes (suc (length input)) (start input) (omega arith))
      (sym (unfold_parse input) ∙ e)

agree :
    (more : Bytes) {r r' : Parse (RespFrame × RespParser)}
    → Keeps more r' r
    → (r >>= consumed) ≢ out_of_fuel
    → (more ≡ []) ⊎ ((r >>= consumed) ≢ err incomplete)
    → (r' >>= consumed) ≡ (r >>= consumed)
agree more (kept a p e) h g = rw e
agree more (waits e) h (inl g) = rw (e g)
agree more (waits e) h (inr g) = absurd (g refl)
agree more (fails x e) h g = rw e
agree more (panics e) h g = rw e
agree more spent h g = absurd (h refl)

-- An outcome other than `incomplete` stays when bytes follow.
pub parse_resp-append :
    (s more : Bytes) → parse_resp s ≢ err incomplete → parse_resp (s ++ more) ≡ parse_resp s
parse_resp-append s more h =
    unfold_parse (s ++ more)
    ∙ agree more
        (parse_value-Keeps more (suc (length s)) (suc (length (s ++ more)))
          (omega (arith, length-append s more)) (start s))
        (λ e. parse_resp-returns s (unfold_parse s ∙ e)) (inr (λ e. h (unfold_parse s ∙ e)))
    ∙ sym (unfold_parse s)

alone-Front :
    (input : Bytes) (v : RespFrame) (n : ℕ) (w : Front v n input (suc (length input)))
    → parse_resp w.used ≡ ok (v, n)
alone-Front input v n w =
    unfold_parse w.used
    ∙ sym (
        agree []
          (parse_value-Keeps [] (suc (length w.used)) (suc (length input))
            (omega (arith, ap length w.splits, length-append w.used w.after)) (start w.used))
          (λ e. parse_resp-returns w.used (unfold_parse w.used ∙ e)) (inl refl))
    ∙ ap (λ r. r >>= consumed) (w.alone [])

take-Front :
    (v : RespFrame) (n : ℕ) (input : Bytes) (f : ℕ) (w : Front v n input f) → take n input ≡ w.used
take-Front v n input f w = ap₂ take w.size w.splits ∙ take-append w.used w.after

-- A parsed frame has a byte at least, lies within the input, and its bytes alone, whatever follows
-- them, parse to the same frame.
pub parse_resp-front :
    (s : Bytes) (v : RespFrame) (n : ℕ)
    → parse_resp s ≡ ok (v, n)
    → (0 < n) × (n ≤ length s) × ((more : Bytes) → parse_resp (take n s ++ more) ≡ ok (v, n))
parse_resp-front s v n e =
    let w = front s v n e in
    let alone : parse_resp (take n s) ≡ ok (v, n) =
      rw (take-Front v n s _ w) (alone-Front s v n w) in
    (
      omega (arith, w.size, w.some_byte),
      omega (arith, w.size, ap length w.splits, length-append w.used w.after),
      λ more. parse_resp-append (take n s) more (λ h. cc) ∙ alone,
    )

pub incomplete_or_not : (r : Parse (RespFrame × ℕ)) → (r ≡ err incomplete) ⊎ (r ≢ err incomplete)
incomplete_or_not (ok a) = inr (λ e. cc)
incomplete_or_not (err incomplete) = inl refl
incomplete_or_not (err e) = inr (λ h. cc)
incomplete_or_not panicked = inr (λ e. cc)
incomplete_or_not out_of_fuel = inr (λ e. cc)

-- Cut before its end, a frame is `incomplete`: never another frame, an error or a panic.
pub parse_resp-take :
    (s : Bytes) (v : RespFrame) (n k : ℕ)
    → parse_resp s ≡ ok (v, n)
    → k < n
    → parse_resp (take k s) ≡ err incomplete
parse_resp-take s v n k e lt = elim (incomplete_or_not (parse_resp (take k s))) [
  | inl h ↦ h
  | inr h ↦
      let whole : parse_resp (take k s) ≡ ok (v, n) =
        sym (parse_resp-append (take k s) (drop k s) h)
        ∙ ap parse_resp (take-append-drop k s)
        ∙ e in
      let (some_byte, within, alone) = parse_resp-front (take k s) v n whole in
      absurd (omega (arith, length-take_min k s))
]
