-- ===== src/Clients/Shell/Line/Quote.antt =====
-- Every list of arguments can be typed, and a quotation that is left open is an error.
use rustkv_lab.Prelude.{
  ℕ, ◌≡◌, ◌⊎◌, refl, ap, ap₂, ◌∙◌, inl, inr, true, false, Bool-cases, ◌||◌, ◌==◌, if◌then◌else◌,
  List, [], ◌∷◌, ◌++◌, map, append_assoc, append-nil, arith, All, ok, err,
}
use rustkv_lab.Text.{codes}
use rustkv_lab.Text.Chars.{Chars, is_whitespace}
use rustkv_lab.Clients.Shell.Line.{
  backslash, single_quote, double_quote, split_char, split_chars, split_command_line, split_end,
  last_backslash,
}
use rustkv_lab.Clients.Shell.Line.Grammar.{
  Quoted, alone, escaped, Piece, quotation, quoted_text, quoted_value, IsQuoted, IsPiece,
  typed_pieces, values, word_value, Word, IsSpace, Spaced, IsSpaced, typed_words, spaced_values,
  last_word, typed_ending,
}
use rustkv_lab.Clients.Shell.Line.Split.{
  word, quoting, split_open, split-word, split_gaps, split-typed_words, split_command_line-typed,
}

abbrev pub quoted_char : ℕ → Quoted
quoted_char c = if c == double_quote || c == backslash then escaped c else alone c

-- An argument between double quotes, its double quotes and backslashes behind a backslash.
abbrev pub quoted_word : Chars → Word
quoted_word arg = (quotation double_quote (map quoted_char arg), [])

abbrev spaced_arg : Chars → Spaced
spaced_arg arg = record { word = quoted_word arg; gap = b' '; gaps = [] }

abbrev pub quoted_args : List Chars → List Spaced
quoted_args = map spaced_arg

quoted_char-IsQuoted : (c : ℕ) → IsQuoted double_quote (quoted_char c)
quoted_char-IsQuoted c = elim (Bool-cases (c == double_quote || c == backslash)) [
  | inl e ↦ rw e tt
  | inr e ↦ rw e (ground arith, ground arith)
]

quoted_value-cons :
    (c : ℕ) (qs : List Quoted) → quoted_value (quoted_char c ∷ qs) ≡ c ∷ quoted_value qs
quoted_value-cons c qs = ground arith

quoted_char-map : (arg : Chars) → All (IsQuoted double_quote) (map quoted_char arg)
quoted_char-map [] = tt
quoted_char-map (c ∷ arg) = (quoted_char-IsQuoted c, quoted_char-map arg)

quoted_value-quoted : (arg : Chars) → quoted_value (map quoted_char arg) ≡ arg
quoted_value-quoted [] = refl
quoted_value-quoted (c ∷ arg) =
    quoted_value-cons c (map quoted_char arg) ∙ ap (λ s. c ∷ s) (quoted_value-quoted arg)

quoted_args-IsSpaced : (args : List Chars) → All IsSpaced (quoted_args args)
unfolding is_whitespace
quoted_args-IsSpaced [] = tt
quoted_args-IsSpaced (arg ∷ args) =
    ((((inl refl, quoted_char-map arg), tt), (refl, tt)), quoted_args-IsSpaced args)

spaced_values-quoted : (args : List Chars) → spaced_values (quoted_args args) ≡ args
spaced_values-quoted [] = refl
spaced_values-quoted (arg ∷ args) =
    ap₂ (λ v vs. v ∷ vs) (append-nil _ ∙ quoted_value-quoted arg) (spaced_values-quoted args)

-- The arguments quoted, with a space between two of them, are read back.
pub split_command_line-quoted :
    (init : List Chars) (last : Chars)
    → split_command_line
        (typed_words (quoted_args init) (typed_ending (last_word (quoted_word last))))
      ≡ ok (init ++ last ∷ [])
split_command_line-quoted init last =
    split_command_line-typed [] (quoted_args init) (last_word (quoted_word last)) tt
      (quoted_args-IsSpaced init) ((inl refl, quoted_char-map last), tt)
    ∙ ap ok (
        ap₂ (λ v w. v ++ w ∷ []) (spaced_values-quoted init)
          (append-nil _ ∙ quoted_value-quoted last))

split_unclosed :
    (q : ℕ) (qs : List Quoted) (tokens : List Chars) (current rest : Chars)
    → All (IsQuoted q) qs
    → split_chars (quoting q tokens current) (quoted_text qs ++ rest)
      ≡ split_chars (quoting q tokens (current ++ quoted_value qs)) rest
unfolding split_chars split_char
split_unclosed q [] tokens current rest h = rw append-nil refl
split_unclosed q (alone c ∷ qs) tokens current rest h = ground (
  arith,
  split_unclosed q qs tokens (current ++ c ∷ []) rest h.1,
  append_assoc current (c ∷ []) (quoted_value qs),
  h.0,
)
split_unclosed q (escaped c ∷ qs) tokens current rest h = ground (
  arith,
  split_unclosed q qs tokens (current ++ c ∷ []) rest h.1,
  append_assoc current (c ∷ []) (quoted_value qs),
)

-- The parts of a word, none or more, in front of an open quotation.
split_start :
    (ps : List Piece) (q : ℕ) (tokens : List Chars) (rest : Chars)
    → All IsPiece ps
    → (q ≡ double_quote) ⊎ (q ≡ single_quote)
    → split_chars (word false tokens []) (typed_pieces ps (q ∷ rest))
      ≡ split_chars (quoting q tokens (values ps)) rest
split_start [] q tokens rest h hq = split_open q false tokens [] rest hq
split_start (p ∷ ps) q tokens rest h hq =
    split-word (p, ps) tokens (q ∷ rest) h ∙ split_open q true tokens (word_value (p, ps)) rest hq

-- The end of an open quotation: nothing, or a backslash with nothing behind it.
abbrev pub IsCut : Chars → Type 0
IsCut tail = (tail ≡ []) ⊎ (tail ≡ backslash ∷ [])

split_cut :
    (q : ℕ) (tokens : List Chars) (current tail : Chars)
    → IsCut tail
    → split_end (last_backslash (split_chars (quoting q tokens current) tail))
      ≡ err (codes "missing closing quote " ++ q ∷ [])
unfolding split_chars split_char
split_cut q tokens current tail (inl e) = rw e refl
split_cut q tokens current tail (inr e) = rw e refl

-- A line that ends within a quotation is refused, with the quotation mark that is missing: white
-- space and words, then any parts of a word, none or more, then a mark with characters behind it
-- that do not close it, and at the end nothing or a lone backslash.
pub split_command_line-unclosed :
    (gaps : Chars) (ss : List Spaced) (ps : List Piece) (q : ℕ) (qs : List Quoted) (tail : Chars)
    → All IsSpace gaps
    → All IsSpaced ss
    → All IsPiece ps
    → (q ≡ double_quote) ⊎ (q ≡ single_quote)
    → All (IsQuoted q) qs
    → IsCut tail
    → split_command_line (gaps ++ typed_words ss (typed_pieces ps (q ∷ (quoted_text qs ++ tail))))
      ≡ err (codes "missing closing quote " ++ q ∷ [])
unfolding split_command_line
split_command_line-unclosed gaps ss ps q qs tail hg hs hp hq h cut =
    rw
      (
        split_gaps gaps [] _ hg,
        split-typed_words ss [] _ hs,
        split_start ps q (spaced_values ss) _ hp hq,
        split_unclosed q qs (spaced_values ss) (values ps) tail h,
      )
      (split_cut q (spaced_values ss) _ tail cut)
