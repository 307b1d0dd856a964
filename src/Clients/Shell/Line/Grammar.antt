-- ===== src/Clients/Shell/Line/Grammar.antt =====
-- The lines that `split_command_line` accepts, as their parts: an independent description of what a
-- line means.
use rustkv_lab.Prelude.{ℕ, ◌≡◌, ◌≢◌, ◌⊎◌, true, false, List, [], ◌∷◌, ◌++◌, All}
use rustkv_lab.Text.Chars.{Chars, is_whitespace}
use rustkv_lab.Clients.Shell.Line.{backslash, single_quote, double_quote}

-- A character between quotation marks, alone or behind a backslash.
pub data Quoted : Type 0 where
  alone : ℕ → Quoted
  escaped : ℕ → Quoted

-- A part of a word: a character, a character behind a backslash, or a quotation.
pub data Piece : Type 0 where
  bare : ℕ → Piece
  escape : ℕ → Piece
  quotation : ℕ → List Quoted → Piece

abbrev pub quoted_text : List Quoted → Chars
quoted_text [] = []
quoted_text (alone c ∷ qs) = c ∷ quoted_text qs
quoted_text (escaped c ∷ qs) = backslash ∷ c ∷ quoted_text qs

abbrev pub quoted_value : List Quoted → Chars
quoted_value [] = []
quoted_value (alone c ∷ qs) = c ∷ quoted_value qs
quoted_value (escaped c ∷ qs) = c ∷ quoted_value qs

-- What is typed of a part, in front of what follows.
abbrev pub typed : Piece → Chars → Chars
typed (bare c) rest = c ∷ rest
typed (escape c) rest = backslash ∷ c ∷ rest
typed (quotation q qs) rest = q ∷ (quoted_text qs ++ (q ∷ rest))

abbrev pub value : Piece → Chars
value (bare c) = c ∷ []
value (escape c) = c ∷ []
value (quotation q qs) = quoted_value qs

abbrev pub IsQuoted : ℕ → Quoted → Type 0
IsQuoted q (alone c) = (c ≢ q) × (c ≢ backslash)
IsQuoted q (escaped c) = Unit

abbrev pub IsPiece : Piece → Type 0
IsPiece (bare c) =
    (c ≢ backslash) × (c ≢ double_quote) × (c ≢ single_quote) × (is_whitespace c ≡ false)
IsPiece (escape c) = Unit
IsPiece (quotation q qs) = ((q ≡ double_quote) ⊎ (q ≡ single_quote)) × All (IsQuoted q) qs

-- A word: its first part, and the others.
abbrev pub Word : Type 0
Word = Piece × List Piece

abbrev pub typed_pieces : List Piece → Chars → Chars
typed_pieces [] rest = rest
typed_pieces (p ∷ ps) rest = typed p (typed_pieces ps rest)

abbrev pub values : List Piece → Chars
values [] = []
values (p ∷ ps) = value p ++ values ps

abbrev pub word_value : Word → Chars
word_value (p, ps) = values (p ∷ ps)

abbrev pub IsWord : Word → Type 0
IsWord (p, ps) = All IsPiece (p ∷ ps)

abbrev pub IsSpace : ℕ → Type 0
IsSpace c = is_whitespace c ≡ true

-- A word, the white space character that ends it, and more white space.
pub record Spaced : Type 0 where
  pub word : Word
  pub gap : ℕ
  pub gaps : Chars

abbrev pub IsSpaced : Spaced → Type 0
IsSpaced s = IsWord s.word × (IsSpace s.gap × All IsSpace s.gaps)

abbrev pub typed_words : List Spaced → Chars → Chars
typed_words [] rest = rest
typed_words (s ∷ ss) rest =
    typed_pieces (s.word.0 ∷ s.word.1) (s.gap ∷ (s.gaps ++ typed_words ss rest))

abbrev pub spaced_values : List Spaced → List Chars
spaced_values [] = []
spaced_values (s ∷ ss) = word_value s.word ∷ spaced_values ss

-- The end of a line: nothing, or a word.
pub data Ending : Type 0 where
  done : Ending
  last_word : Word → Ending

abbrev pub typed_ending : Ending → Chars
typed_ending done = []
typed_ending (last_word w) = typed_pieces (w.0 ∷ w.1) []

abbrev pub ending_values : Ending → List Chars
ending_values done = []
ending_values (last_word w) = word_value w ∷ []

abbrev pub IsEnding : Ending → Type 0
IsEnding done = Unit
IsEnding (last_word w) = IsWord w
