-- ===== src/Clients/Shell/Line.antt =====
-- How the shell reads a line: `split_command_line` and `parse_shell_input`.
pub mod Grammar
pub mod Split
pub mod Quote
use rustkv_lab.Prelude.{
  ℕ, ◌+◌, ◌-◌, ◌≡◌, refl, Bool, true, false, ◌&&◌, ◌||◌, Option, none, some, List, [], ◌∷◌, ◌++◌,
  map, Bytes, bytes_eq, leb, ◌==◌, if◌then◌else◌, Result, ok, err, ◌>>=◌,
}
use rustkv_lab.Text.{codes}
use rustkv_lab.Text.Chars.{Chars, into_bytes, is_whitespace}

abbrev pub backslash : ℕ
backslash = 0x5c

abbrev pub single_quote : ℕ
single_quote = 0x27

abbrev pub double_quote : ℕ
double_quote = 0x22

-- The variables of the loop of `split_command_line`.
pub record Splitting : Type 0 where
  pub tokens : List Chars
  pub current : Chars
  pub quote : Option ℕ
  pub escaped : Bool
  pub active : Bool

abbrev pub pushed : Splitting → ℕ → Splitting
pushed s ch = record s { current = s.current ++ ch ∷ []; active = true }

abbrev in_quotation : Splitting → ℕ → ℕ → Splitting
in_quotation s quote_ch ch =
    if ch == quote_ch then record s { quote = none; active = true } else pushed s ch

abbrev in_space : Splitting → Splitting
in_space s =
    if s.active
    then record s { tokens = s.tokens ++ s.current ∷ []; current = []; active = false }
    else s

abbrev outside : Splitting → ℕ → Splitting
outside s ch =
    if ch == double_quote || ch == single_quote
    then record s { quote = some ch; active = true }
    else if is_whitespace ch
    then in_space s
    else pushed s ch

-- One round of the loop, for the character `ch`.
pub split_char : Splitting → ℕ → Splitting
unfolding is_whitespace
split_char s ch =
    if s.escaped
    then record s { current = s.current ++ ch ∷ []; active = true; escaped = false }
    else if ch == backslash
    then record s { escaped = true; active = true }
    else elim s.quote [ some quote_ch ↦ in_quotation s quote_ch ch | none ↦ outside s ch ]

pub split_chars : Splitting → Chars → Splitting
unfolding split_char
split_chars s [] = s
split_chars s (ch ∷ input) = split_chars (split_char s ch) input

abbrev pub no_tokens : Splitting
no_tokens = record { tokens = []; current = []; quote = none; escaped = false; active = false }

abbrev pub last_backslash : Splitting → Splitting
last_backslash s = if s.escaped then record s { current = s.current ++ backslash ∷ [] } else s

abbrev pub split_end : Splitting → Result Chars (List Chars)
split_end s = elim s.quote [
  | some quote_ch ↦ err (codes "missing closing quote " ++ quote_ch ∷ [])
  | none ↦ ok (if s.active then s.tokens ++ s.current ∷ [] else s.tokens)
]

unfoldable pub split_command_line : Chars → Result Chars (List Chars)
unfolding split_chars
split_command_line input = split_end (last_backslash (split_chars no_tokens input))

pub data ShellAction : Type 0 where
  send : List Bytes → ShellAction
  clear : ShellAction
  help : ShellAction
  quit : ShellAction

abbrev lower : ℕ → ℕ
lower c = if leb b'A' c && leb c b'Z' then c + 32 else c

-- The `match` on the first token, in lower case.
abbrev pub action_of : Chars → List Chars → ShellAction
action_of name tokens =
    if bytes_eq name (codes "quit") || bytes_eq name (codes "exit")
    then quit
    else if bytes_eq name (codes "clear")
    then clear
    else if bytes_eq name (codes "help") || bytes_eq name (codes "?")
    then help
    else send (map into_bytes tokens)

abbrev pub action_on : List Chars → Result Chars ShellAction
action_on [] = ok help
action_on (name ∷ tokens) = ok (action_of (map lower name) (name ∷ tokens))

unfoldable pub parse_shell_input : Chars → Result Chars ShellAction
unfolding split_command_line into_bytes bytes_eq
parse_shell_input line = do tokens ← split_command_line line; action_on tokens

split_samples :
    (split_command_line (codes "set greeting 'hello rust'")
      ≡ ok (codes "set" ∷ codes "greeting" ∷ codes "hello rust" ∷ []))
    × (split_command_line (codes "  a\\ b  '' ") ≡ ok (codes "a b" ∷ [] ∷ []))
    × (split_command_line (codes "get 'k") ≡ err (codes "missing closing quote '"))
    × (parse_shell_input (codes "EXIT now") ≡ ok quit)
    × (parse_shell_input (codes "del name") ≡ ok (send (codes "del" ∷ codes "name" ∷ [])))
    × (parse_shell_input (codes " ") ≡ ok help)
unfolding split_command_line parse_shell_input
split_samples = (refl, refl, refl, refl, refl, refl)
