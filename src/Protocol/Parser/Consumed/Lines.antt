-- ===== src/Protocol/Parser/Consumed/Lines.antt =====
-- What a line or a bulk body that was read looks like, and what it takes.
use rustkv_lab.Prelude.{
  ℕ, ◌+◌, ◌≤◌, ◌≡◌, refl, true, false, some, [], ◌∷◌, ◌++◌, append_assoc, arith, Bytes, ltb, leb,
  ◌==◌, ◌&&◌, ltb-false, Bool-cases, Option-cases, ◌⊎◌, inl, inr, length, length-append, get_or,
  get_or-append_lt, take-append_le, drop-append, take, drop,
}
use rustkv_lab.Protocol.{ProtocolError, incomplete}
use rustkv_lab.Protocol.Parser.{
  RespParser, usize_limit, bulk_overflow, bulk_unterminated, ok, err, scan_line, read_line,
  read_bulk_bytes,
}
use rustkv_lab.Protocol.Parser.Consumed.Amounts.{took, failed, Takes}

pub scan_line-split :
    (s line after : Bytes) → scan_line s ≡ some (line, after) → s ≡ (line ++ 13 ∷ 10 ∷ []) ++ after
unfolding scan_line
scan_line-split [] line after h = cc
scan_line-split (a ∷ []) line after h = cc
scan_line-split (a ∷ b ∷ s) line after h = elim (Option-cases (scan_line (b ∷ s))) [
  | inl e ↦ ground (arith, e)
  | inr (x, e) ↦ ground (arith, e, scan_line-split (b ∷ s) x.0 x.1 e)
]

-- A byte before a line is part of the line, unless it and the next are the line's end.
pub scan_line-cons :
    (a b : ℕ) (s line t : Bytes)
    → (a == 13 && b == 10) ≡ false
    → b ∷ s ≡ (line ++ 13 ∷ 10 ∷ []) ++ t
    → (t' : Bytes) → scan_line (line ++ 13 ∷ 10 ∷ t') ≡ some (line, t')
    → scan_line (a ∷ line ++ 13 ∷ 10 ∷ t') ≡ some (a ∷ line, t')
unfolding scan_line
scan_line-cons a b s [] t h e t' g = ground arith
scan_line-cons a b s (c ∷ line) t h e t' g = ground arith

pub scan_line_inv :
    (a b : ℕ) (s line after : Bytes)
    → scan_line (a ∷ b ∷ s) ≡ some (line, after)
    → (line ≡ [])
      ⊎ ((l : Bytes) × ((a == 13 && b == 10) ≡ false)
          × (scan_line (b ∷ s) ≡ some (l, after))
          × (line ≡ a ∷ l))
unfolding scan_line
scan_line_inv a b s line after h = elim (Bool-cases (a == 13 && b == 10)) [
  | inl c ↦ inl (ground arith)
  | inr c ↦ elim (Option-cases (scan_line (b ∷ s))) [
    | inl e ↦ absurd (ground (arith, e))
    | inr (x, e) ↦ inr (x.0, c, ground (arith, e), ground (arith, e))
  ]
]

pub scan_line_any :
    (s line after : Bytes)
    → scan_line s ≡ some (line, after)
    → (t : Bytes) → scan_line (line ++ 13 ∷ 10 ∷ t) ≡ some (line, t)
scan_line_any [] line after h t = unfold scan_line in cc
scan_line_any (a ∷ []) line after h t = unfold scan_line in cc
scan_line_any (a ∷ b ∷ s) line after h t = elim (scan_line_inv a b s line after h) [
  | inl e ↦ rw e (unfold scan_line in refl)
  | inr (l, c, e1, e2) ↦ rw e2 (
      scan_line-cons a b s l after c (scan_line-split (b ∷ s) l after e1) t
        (scan_line_any (b ∷ s) l after e1 t))
]

pub bulk_lem :
    (len n : ℕ) (used t : Bytes)
    → length used ≡ len + 2
    → leb usize_limit (n + len + 2) ≡ false
    → (get_or used len 0 == 13 && get_or used (len + 1) 0 == 10) ≡ true
    → read_bulk_bytes len (record { rest = used ++ t; pos = n })
      ≡ ok (take len used, record { rest = t; pos = n + len + 2 })
unfolding read_bulk_bytes
bulk_lem len n used t h1 h2 h3 =
    rw
      (
        get_or-append_lt used t len 0 (omega arith),
        get_or-append_lt used t (len + 1) 0 (omega arith),
        take-append_le len used t (omega arith),
        ← h1,
        drop-append used t,
      )
      (ground (arith, length-append used t))

pub read_line_at :
    (s line after : Bytes) (n : ℕ)
    → scan_line s ≡ some (line, after)
    → read_line (record { rest = s; pos = n })
      ≡ ok (line, record { rest = after; pos = n + length line + 2 })
unfolding read_line
read_line_at s line after n e = rw (read_line, e)

pub read_line-Takes : (p : RespParser) → Takes read_line 2 p
read_line-Takes p = elim (Option-cases (scan_line p.rest)) [
  | inl e ↦ unfold read_line in rw (read_line, e) (failed _)
  | inr (x, e) ↦ rw (read_line_at p.rest x.0 x.1 p.pos e) (
      took x.0 (record { rest = x.1; pos = p.pos + length x.0 + 2 }) (x.0 ++ 13 ∷ 10 ∷ [])
        (scan_line-split p.rest x.0 x.1 e) (omega (arith, length-append x.0 (13 ∷ 10 ∷ [])))
        (omega (arith, length-append x.0 (13 ∷ 10 ∷ [])))
        (λ t.
          rw (append_assoc x.0 (13 ∷ 10 ∷ []) t)
            (read_line_at (x.0 ++ 13 ∷ 10 ∷ t) x.0 t p.pos (scan_line_any p.rest x.0 x.1 e t))))
]

pub bulk_inv :
    (len : ℕ) (p : RespParser)
    → ((e : ProtocolError) × (read_bulk_bytes len p ≡ err e))
      ⊎ ((leb usize_limit (p.pos + len + 2) ≡ false)
          × (len + 2 ≤ length p.rest)
          × ((get_or p.rest len 0 == 13 && get_or p.rest (len + 1) 0 == 10) ≡ true)
          × (read_bulk_bytes len p
              ≡ ok (
                take len p.rest,
                record { rest = drop (len + 2) p.rest; pos = p.pos + len + 2 },
              )))
unfolding read_bulk_bytes
bulk_inv len p = elim (Bool-cases (leb usize_limit (p.pos + len))) [
  | inl o ↦ inl (bulk_overflow, rw (read_bulk_bytes, o))
  | inr o ↦ elim (Bool-cases (leb usize_limit (p.pos + len + 2))) [
    | inl o' ↦ inl (bulk_overflow, rw (read_bulk_bytes, o, o'))
    | inr o' ↦ elim (Bool-cases (ltb (p.pos + length p.rest) (p.pos + len + 2))) [
      | inl s ↦ inl (incomplete, rw (read_bulk_bytes, o, o', s))
      | inr s ↦ elim (Bool-cases (get_or p.rest len 0 == 13 && get_or p.rest (len + 1) 0 == 10)) [
        | inl c ↦ inr (o', omega (arith, ltb-false _ _ s), c, rw (read_bulk_bytes, o, o', s, c))
        | inr c ↦ inl (bulk_unterminated, rw (read_bulk_bytes, o, o', s, c))
      ]
    ]
  ]
]
