-- ===== src/Clients/Shell/Line/Split.antt =====
-- `split_command_line` reads every line of the grammar as the values of its words.
use rustkv_lab.Prelude.{
  ℕ, ◌≡◌, ◌≢◌, ◌⊎◌, refl, ◌∙◌, true, false, Bool, some, List, [], ◌∷◌, ◌++◌, append_assoc,
  append-nil, arith, All, ok,
}
use rustkv_lab.Text.Chars.{Chars, is_whitespace}
use rustkv_lab.Clients.Shell.Line.{
  backslash, single_quote, double_quote, Splitting, split_char, split_chars, no_tokens,
  split_command_line,
}
use rustkv_lab.Clients.Shell.Line.Grammar.{
  Quoted, alone, escaped, Piece, bare, escape, quotation, quoted_text, quoted_value, typed, value,
  IsQuoted, IsPiece, Word, typed_pieces, values, word_value, IsWord, IsSpace, Spaced, IsSpaced,
  typed_words, spaced_values, Ending, done, last_word, typed_ending, ending_values, IsEnding,
}

abbrev pub word : Bool → List Chars → Chars → Splitting
word active tokens current = record no_tokens {
  tokens = tokens;
  current = current;
  active = active;
}

abbrev pub quoting : ℕ → List Chars → Chars → Splitting
quoting q tokens current = record no_tokens {
  tokens = tokens;
  current = current;
  quote = some q;
  active = true;
}

split-quoted :
    (q : ℕ) (qs : List Quoted) (tokens : List Chars) (current rest : Chars)
    → All (IsQuoted q) qs
    → q ≢ backslash
    → split_chars (quoting q tokens current) (quoted_text qs ++ (q ∷ rest))
      ≡ split_chars (word true tokens (current ++ quoted_value qs)) rest
unfolding split_chars split_char
split-quoted q [] tokens current rest h ne = rw append-nil (ground arith)
split-quoted q (alone c ∷ qs) tokens current rest h ne = ground (
  arith,
  split-quoted q qs tokens (current ++ c ∷ []) rest h.1 ne,
  append_assoc current (c ∷ []) (quoted_value qs),
  h.0,
)
split-quoted q (escaped c ∷ qs) tokens current rest h ne = ground (
  arith,
  split-quoted q qs tokens (current ++ c ∷ []) rest h.1 ne,
  append_assoc current (c ∷ []) (quoted_value qs),
)

quote-ne-backslash : (q : ℕ) → (q ≡ double_quote) ⊎ (q ≡ single_quote) → q ≢ backslash
quote-ne-backslash q h = ground arith

-- The mark that opens a quotation.
pub split_open :
    (q : ℕ) (active : Bool) (tokens : List Chars) (current rest : Chars)
    → (q ≡ double_quote) ⊎ (q ≡ single_quote)
    → split_chars (word active tokens current) (q ∷ rest)
      ≡ split_chars (quoting q tokens current) rest
unfolding split_chars split_char
split_open q active tokens current rest h = ground arith

split-typed :
    (p : Piece) (active : Bool) (tokens : List Chars) (current rest : Chars)
    → IsPiece p
    → split_chars (word active tokens current) (typed p rest)
      ≡ split_chars (word true tokens (current ++ value p)) rest
split-typed (bare c) active tokens current rest h = unfold split_chars split_char in ground arith
split-typed (escape c) active tokens current rest h = unfold split_chars split_char in ground arith
split-typed (quotation q qs) active tokens current rest h =
    split_open q active tokens current _ h.0
    ∙ split-quoted q qs tokens current rest h.1 (quote-ne-backslash q h.0)

split-typed_pieces :
    (ps : List Piece) (tokens : List Chars) (current rest : Chars)
    → All IsPiece ps
    → split_chars (word true tokens current) (typed_pieces ps rest)
      ≡ split_chars (word true tokens (current ++ values ps)) rest
split-typed_pieces [] tokens current rest h = rw append-nil refl
split-typed_pieces (p ∷ ps) tokens current rest h =
    split-typed p true tokens current _ h.0
    ∙ split-typed_pieces ps tokens (current ++ value p) rest h.1
    ∙ rw append_assoc refl

pub split-word :
    (w : Word) (tokens : List Chars) (rest : Chars)
    → IsWord w
    → split_chars (word false tokens []) (typed_pieces (w.0 ∷ w.1) rest)
      ≡ split_chars (word true tokens (word_value w)) rest
split-word (p, ps) tokens rest h =
    split-typed p false tokens [] _ h.0 ∙ split-typed_pieces ps tokens (value p) rest h.1

whitespace_is_plain :
    (c : ℕ) → IsSpace c → (c ≢ backslash) × (c ≢ double_quote) × (c ≢ single_quote)
unfolding is_whitespace
whitespace_is_plain c h = (ground arith, ground arith, ground arith)

split_gap :
    (c : ℕ) (tokens : List Chars) (current rest : Chars)
    → IsSpace c
    → split_chars (word true tokens current) (c ∷ rest)
      ≡ split_chars (word false (tokens ++ current ∷ []) []) rest
unfolding split_chars split_char
split_gap c tokens current rest h = let (p, q, r) = whitespace_is_plain c h in ground arith

pub split_gaps :
    (gaps : Chars) (tokens : List Chars) (rest : Chars)
    → All IsSpace gaps
    → split_chars (word false tokens []) (gaps ++ rest) ≡ split_chars (word false tokens []) rest
unfolding split_chars split_char
split_gaps [] tokens rest h = refl
split_gaps (c ∷ gaps) tokens rest h =
    let (p, q, r) = whitespace_is_plain c h.0 in
    ground (arith, h.0, split_gaps gaps tokens rest h.1)

pub split-typed_words :
    (ss : List Spaced) (tokens : List Chars) (rest : Chars)
    → All IsSpaced ss
    → split_chars (word false tokens []) (typed_words ss rest)
      ≡ split_chars (word false (tokens ++ spaced_values ss) []) rest
split-typed_words [] tokens rest h = rw append-nil refl
split-typed_words (s ∷ ss) tokens rest h =
    let (ok_word, (ok_gap, ok_gaps)) = h.0 in
    split-word s.word tokens _ ok_word
    ∙ split_gap s.gap tokens (word_value s.word) _ ok_gap
    ∙ split_gaps s.gaps _ _ ok_gaps
    ∙ split-typed_words ss (tokens ++ word_value s.word ∷ []) rest h.1
    ∙ rw append_assoc refl

-- The shell splits a line of white space and words, each of bare characters, characters behind a
-- backslash and quotations, into the values of its words, as the grammar describes them.
pub split_command_line-typed :
    (gaps : Chars) (ss : List Spaced) (e : Ending)
    → All IsSpace gaps
    → All IsSpaced ss
    → IsEnding e
    → split_command_line (gaps ++ typed_words ss (typed_ending e))
      ≡ ok (spaced_values ss ++ ending_values e)
unfolding split_command_line
split_command_line-typed gaps ss done hg hs he =
    rw (split_gaps gaps [] _ hg, split-typed_words ss [] [] hs)
      (unfold split_chars in rw append-nil refl)
split_command_line-typed gaps ss (last_word w) hg hs he =
    rw
      (split_gaps gaps [] _ hg, split-typed_words ss [] _ hs, split-word w (spaced_values ss) [] he)
      (unfold split_chars in refl)
