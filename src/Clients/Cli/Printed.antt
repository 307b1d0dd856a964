-- ===== src/Clients/Cli/Printed.antt =====
-- What is printed of a response holds no terminal control sequence.
use rustkv_lab.Prelude.{
  ℕ, zero, suc, ◌+◌, ◌<◌, ◌≤◌, ◌≡◌, Bool, true, Bool-cases, ◌&&◌, inl, inr, List, [], ◌∷◌, ◌++◌,
  arith, Bytes, All, All-append,
}
use rustkv_lab.Text.{codes}
use rustkv_lab.Text.Utf8.{is_utf8, IsAscii}
use rustkv_lab.Text.Chars.{Chars, chars, is_control}
use rustkv_lab.Text.Chars.RoundTrip.{chars_of_ascii, chars_append_ascii}
use rustkv_lab.Text.Decimal.{to_string, int_to_string}
use rustkv_lab.Text.Decimal.RoundTrip.{to_string-All, int_to_string-All, IsDigit, IsNumeral}
use rustkv_lab.Protocol.Resp.{
  RespFrame, RespValues, simple_string, error, integer, bulk_string, array, null, nil, cons,
}
use rustkv_lab.Clients.Cli.{
  all_chars, is_terminal_char, is_terminal_text, hex, format_bytes, prefix, format_resp_lines,
  format_values,
}

-- No control character but a line end or a tab.
abbrev pub IsTerminal : Bytes → Type 0
IsTerminal text = All (λ c. is_terminal_char c ≡ true) (chars text)

-- The characters of ASCII that are printed.
abbrev IsPlain : ℕ → Type 0
IsPlain c = (b' ' ≤ c) × (c < 0x7f)

IsPlain-IsAscii : (s : Bytes) → All IsPlain s → IsAscii s
IsPlain-IsAscii [] h = tt
IsPlain-IsAscii (c ∷ s) h = (omega arith, IsPlain-IsAscii s h.1)

is_terminal_plain : (s : Bytes) → All IsPlain s → All (λ c. is_terminal_char c ≡ true) s
unfolding is_control
is_terminal_plain [] h = tt
is_terminal_plain (c ∷ s) h = (ground arith, is_terminal_plain s h.1)

plain-IsTerminal : (s : Bytes) → All IsPlain s → IsTerminal s
plain-IsTerminal s h = rw (chars_of_ascii s (IsPlain-IsAscii s h)) (is_terminal_plain s h)

-- Plain text in front of terminal text.
behind_plain : (s t : Bytes) → All IsPlain s → IsTerminal t → IsTerminal (s ++ t)
behind_plain s t h r =
    rw (chars_append_ascii s t (IsPlain-IsAscii s h))
      (All-append _ s (chars t) (is_terminal_plain s h) r)

all_chars-All : (p : ℕ → Bool) (cs : Chars) → all_chars p cs ≡ true → All (λ c. p c ≡ true) cs
unfolding all_chars
all_chars-All p [] h = tt
all_chars-All p (c ∷ cs) h = (ground arith, all_chars-All p cs (ground arith))

hex-All : (bytes : Bytes) → All (λ b. b < 256) bytes → All IsPlain (hex bytes)
unfolding hex
hex-All [] h = tt
hex-All (b ∷ bytes) h = (ground (arith, h.0), (ground (arith, h.0), hex-All bytes h.1))

-- Bytes that are no terminal text are printed as a hexadecimal number.
pub format_bytes-IsTerminal :
    (bytes : Bytes) → All (λ b. b < 256) bytes → IsTerminal (format_bytes bytes)
unfolding format_bytes is_terminal_text
format_bytes-IsTerminal bytes h = elim (Bool-cases (is_utf8 bytes && is_terminal_text bytes)) [
  | inl e ↦ rw e (all_chars-All is_terminal_char (chars bytes) (ground arith))
  | inr e ↦
      rw e
        (plain-IsTerminal (codes "0x" ++ hex bytes) (omega arith, (omega arith, hex-All bytes h)))
]

-- Simple strings and errors are printed as they are.
abbrev mutual
  pub HasTerminalTexts : RespFrame → Type 0
  HasTerminalTexts (simple_string text) = IsTerminal text
  HasTerminalTexts (error text) = IsTerminal text
  HasTerminalTexts (integer number) = Unit
  HasTerminalTexts (bulk_string bytes) = All (λ b. b < 256) bytes
  HasTerminalTexts (array values) = HaveTerminalTexts values
  HasTerminalTexts null = Unit

  pub HaveTerminalTexts : RespValues → Type 0
  HaveTerminalTexts nil = Unit
  HaveTerminalTexts (cons value values) = HasTerminalTexts value × HaveTerminalTexts values

prefix-All : (indent : ℕ) → All IsPlain (prefix indent)
prefix-All zero = tt
prefix-All (suc indent) = (omega arith, (omega arith, prefix-All indent))

digits-IsPlain : (s : Bytes) → All IsDigit s → All IsPlain s
digits-IsPlain [] h = tt
digits-IsPlain (c ∷ s) h = (omega arith, digits-IsPlain s h.1)

numeral-IsPlain : (s : Bytes) → All IsNumeral s → All IsPlain s
numeral-IsPlain [] h = tt
numeral-IsPlain (c ∷ s) h = (omega arith, numeral-IsPlain s h.1)

line-All : (ls ms : List Bytes) → All IsTerminal ls → All IsTerminal ms → All IsTerminal (ls ++ ms)
line-All ls ms h k = All-append IsTerminal ls ms h k

indented : (indent : ℕ) (label : Bytes) → All IsPlain label → All IsPlain (prefix indent ++ label)
indented indent label h = All-append IsPlain (prefix indent) label (prefix-All indent) h

mutual
  unfolding format_resp_lines format_values

  lines_of_frame :
      (v : RespFrame) (indent : ℕ)
      → HasTerminalTexts v
      → All IsTerminal (format_resp_lines v indent)
  lines_of_frame (simple_string text) indent h =
      (behind_plain (prefix indent) text (prefix-All indent) h, tt)
  lines_of_frame (error text) indent h =
      (behind_plain _ text (indented indent (codes "(error) ") (omega arith)) h, tt)
  lines_of_frame (integer number) indent h = (
    behind_plain _ (int_to_string number) (indented indent (codes "(integer) ") (omega arith))
        (plain-IsTerminal _ (numeral-IsPlain _ (int_to_string-All number))),
    tt,
  )
  lines_of_frame (bulk_string bytes) indent h =
      (behind_plain (prefix indent) _ (prefix-All indent) (format_bytes-IsTerminal bytes h), tt)
  lines_of_frame (array values) indent h = lines_of_values values 0 indent h
  lines_of_frame null indent h =
      (plain-IsTerminal _ (indented indent (codes "(nil)") (omega arith)), tt)

  lines_of_values :
      (vs : RespValues) (index indent : ℕ)
      → HaveTerminalTexts vs
      → All IsTerminal (format_values vs index indent)
  lines_of_values nil index indent h = tt
  lines_of_values (cons v vs) index indent h = (
    behind_plain _ (codes ")")
        (indented indent (to_string (index + 1)) (digits-IsPlain _ (to_string-All (index + 1))))
        (plain-IsTerminal (codes ")") (omega arith)),
    line-All _ _ (lines_of_frame v (indent + 1) h.0) (lines_of_values vs (index + 1) indent h.1),
  )

-- The lines that the client prints for a frame hold no control character but line ends and tabs, if
-- its simple strings and errors hold none. Its bulk strings may be of any bytes.
pub format_resp_lines-IsTerminal :
    (v : RespFrame) (indent : ℕ) → HasTerminalTexts v → All IsTerminal (format_resp_lines v indent)
format_resp_lines-IsTerminal v indent h = lines_of_frame v indent h
