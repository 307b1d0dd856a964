-- ===== src/Clients/Shell/App.antt =====
-- `ShellApp`: what the shell shows, and how its history is wrapped into the rows of the terminal.
pub mod Latest
pub mod Visible
use rustkv_lab.Prelude.{
  ℕ, zero, suc, ◌+◌, ◌-◌, ◌≡◌, refl, Bool, true, false, ◌&&◌, ◌||◌, Option, none, some, String,
  List, [], ◌∷◌, ◌++◌, ltb, ◌==◌, if◌then◌else◌, length, drop,
}
use rustkv_lab.Text.{codes}
use rustkv_lab.Text.Chars.{Chars}
use rustkv_lab.Clients.Cli.{join_lines}

pub record ShellApp : Type 0 where
  pub addr : Chars
  pub input : Chars
  pub history : List Chars
  pub connected : Bool
  pub request_count : ℕ
  pub last_error : Option Chars

unfoldable pub new : Chars → ShellApp
new addr = record {
  addr = addr;
  input = [];
  history = [];
  connected = true;
  request_count = 0;
  last_error = none;
}

abbrev pub max_history_lines : ℕ
max_history_lines = 500

-- What `drain(..overflow)` leaves.
abbrev pub drained : List Chars → List Chars
drained history =
    if ltb max_history_lines (length history)
    then drop (length history - max_history_lines) history
    else history

unfoldable pub push_history : Chars → ShellApp → ShellApp
push_history line app = record app { history = drained (app.history ++ line ∷ []) }

-- `format!("> {text}")` and its like.
abbrev pub marked : String → Chars → Chars
marked mark text = codes mark ++ text

unfoldable pub push_user : Chars → ShellApp → ShellApp
unfolding push_history
push_user text app = push_history (marked "> " text) app

unfoldable pub push_error : Chars → ShellApp → ShellApp
unfolding push_history
push_error text app = push_history (marked "! " text) app

unfoldable pub push_system : Chars → ShellApp → ShellApp
unfolding push_history
push_system text app = push_history (marked "* " text) app

-- A line's carriage return before its line feed.
strip_cr : Chars → Chars
strip_cr [] = []
strip_cr (c ∷ []) = if c == b'\r' then [] else c ∷ []
strip_cr (c ∷ d ∷ s) = c ∷ strip_cr (d ∷ s)

abbrev last_line : Chars → List Chars
last_line [] = []
last_line (c ∷ line) = (c ∷ line) ∷ []

-- `line` holds the characters since the last line feed.
lines_from : Chars → Chars → List Chars
unfolding strip_cr
lines_from line [] = last_line line
lines_from line (c ∷ s) =
    let rest = lines_from (if c == b'\n' then [] else line ++ c ∷ []) s in
    if c == b'\n' then strip_cr line ∷ rest else rest

-- `str::lines`
unfoldable pub lines : Chars → List Chars
unfolding lines_from
lines text = lines_from [] text

-- The loops over lines of `push_response` and of the help.
unfoldable pub push_each : String → List Chars → ShellApp → ShellApp
unfolding push_history
push_each mark [] app = app
push_each mark (line ∷ rest) app = push_each mark rest (push_history (marked mark line) app)

unfoldable pub push_response : Chars → ShellApp → ShellApp
unfolding lines push_each
push_response text app = push_each "< " (lines text) app

unfoldable pub visible_input : ℕ → ShellApp → Chars
visible_input width app =
    let max_width = width - 1 in
    if max_width == 0 then [] else drop (length app.input - max_width) app.input

-- The variables of the loop of `wrap_history_line`.
pub record Wrapping : Type 0 where
  pub rows : List Chars
  pub current : Chars
  pub current_width : ℕ

wrap_char : ℕ → Wrapping → ℕ → Wrapping
wrap_char width w ch =
    if w.current_width == width
    then record { rows = w.rows ++ w.current ∷ []; current = ch ∷ []; current_width = 1 }
    else record w { current = w.current ++ ch ∷ []; current_width = w.current_width + 1 }

wrap_chars : ℕ → Wrapping → Chars → Wrapping
unfolding wrap_char
wrap_chars width w [] = w
wrap_chars width w (ch ∷ line) = wrap_chars width (wrap_char width w ch) line

abbrev pub is_empty : Chars → Bool
is_empty [] = true
is_empty (c ∷ s) = false

abbrev pub wrap_end : Chars → Wrapping → List Chars
wrap_end line w =
    if is_empty w.current && (if is_empty line then false else true)
    then w.rows
    else w.rows ++ w.current ∷ []

unfoldable pub wrap_history_line : Chars → ℕ → List Chars
unfolding wrap_chars
wrap_history_line line width =
    if width == 0
    then []
    else wrap_end line
        (wrap_chars width (record { rows = []; current = []; current_width = 0 }) line)

-- `flat_map`
pub wrap_lines : List Chars → ℕ → List Chars
unfolding wrap_history_line
wrap_lines [] width = []
wrap_lines (line ∷ history) width = wrap_history_line line width ++ wrap_lines history width

-- The rows that are joined to the text.
pub visible_rows : ℕ → ℕ → ShellApp → List Chars
unfolding wrap_lines
visible_rows width height app =
    let rows = wrap_lines app.history width in drop (length rows - height) rows

unfoldable pub visible_history_text : ℕ → ℕ → ShellApp → Chars
unfolding visible_rows
visible_history_text width height app =
    if width == 0 || height == 0 then [] else join_lines (visible_rows width height app)

app_samples :
    (lines (codes "a\nb") ≡ codes "a" ∷ codes "b" ∷ [])
    × (wrap_history_line (codes "abcde") 2 ≡ codes "ab" ∷ codes "cd" ∷ codes "e" ∷ [])
    × (visible_history_text 16 3 (
          push_response (codes "PONG") (
            push_response
              (codes "{\"server_version\":\"0.1.0\",\"total_commands\":1}")
              (new (codes "127.0.0.1:6379"))))
        ≡ codes "on\":\"0.1.0\",\"tot\nal_commands\":1}\n< PONG")
unfolding lines wrap_history_line visible_history_text push_response new
app_samples = (refl, refl, refl)
