-- ===== src/Clients/Shell/Session/Trimmed.antt =====
-- A line of quoted arguments has nothing to trim, and is read as the arguments.
use rustkv_lab.Prelude.{ℕ, ◌≡◌, ◌≢◌, refl, ap, ◌∙◌, false, List, [], ◌∷◌, ◌++◌, map}
use rustkv_lab.Text.Chars.{Chars, is_whitespace}
use rustkv_lab.Clients.Shell.Line.{double_quote, action_on, parse_shell_input}
use rustkv_lab.Clients.Shell.Line.Grammar.{quoted_text, typed_words, last_word, typed_ending}
use rustkv_lab.Clients.Shell.Line.Quote.{
  quoted_word, quoted_args, quoted_char, split_command_line-quoted,
}
use rustkv_lab.Clients.Shell.Session.{trim_start, trim_end, trim}

-- The arguments, quoted, with a space between two of them.
abbrev pub quoted_command : List Chars → Chars → Chars
quoted_command init last =
    typed_words (quoted_args init) (typed_ending (last_word (quoted_word last)))

-- A text that does not end with white space.
abbrev HasEnd : Chars → Type 0
HasEnd [] = ⊥
HasEnd (c ∷ []) = is_whitespace c ≡ false
HasEnd (c ∷ d ∷ s) = HasEnd (d ∷ s)

HasEnd-cons : (c : ℕ) (s : Chars) → HasEnd s → HasEnd (c ∷ s)
HasEnd-cons c [] h = elim h [ ]
HasEnd-cons c (d ∷ s) h = h

HasEnd-append : (s t : Chars) → HasEnd t → HasEnd (s ++ t)
HasEnd-append [] t h = h
HasEnd-append (c ∷ s) t h = HasEnd-cons c (s ++ t) (HasEnd-append s t h)

trim_end-HasEnd : (s : Chars) → HasEnd s → trim_end s ≡ s
unfolding trim_end
trim_end-HasEnd [] h = elim h [ ]
trim_end-HasEnd (c ∷ []) h = rw h refl
trim_end-HasEnd (c ∷ d ∷ s) h = rw (trim_end-HasEnd (d ∷ s) h) refl

-- An argument that is quoted, but for its last mark.
opened-HasEnd :
    (arg t : Chars) → HasEnd t → HasEnd (double_quote ∷ (quoted_text (map quoted_char arg) ++ t))
opened-HasEnd arg t h =
    HasEnd-cons double_quote (quoted_text (map quoted_char arg) ++ t)
      (HasEnd-append (quoted_text (map quoted_char arg)) t h)

quoted_words-HasEnd :
    (args : List Chars) (rest : Chars) → HasEnd rest → HasEnd (typed_words (quoted_args args) rest)
quoted_words-HasEnd [] rest h = h
quoted_words-HasEnd (arg ∷ args) rest h =
    let more = typed_words (quoted_args args) rest in
    opened-HasEnd arg (double_quote ∷ b' ' ∷ more) (
      HasEnd-cons double_quote (b' ' ∷ more)
        (HasEnd-cons b' ' more (quoted_words-HasEnd args rest h)))

last-HasEnd : (last : Chars) → HasEnd (typed_ending (last_word (quoted_word last)))
unfolding is_whitespace
last-HasEnd last = opened-HasEnd last (double_quote ∷ []) refl

trim_start-quoted :
    (init : List Chars) (last : Chars)
    → trim_start (quoted_command init last) ≡ quoted_command init last
unfolding trim_start is_whitespace
trim_start-quoted [] last = refl
trim_start-quoted (arg ∷ init) last = refl

pub trim-quoted :
    (init : List Chars) (last : Chars) → trim (quoted_command init last) ≡ quoted_command init last
unfolding trim
trim-quoted init last =
    ap trim_end (trim_start-quoted init last)
    ∙ trim_end-HasEnd _ (quoted_words-HasEnd init _ (last-HasEnd last))

pub quoted_command-ne-nil : (init : List Chars) (last : Chars) → quoted_command init last ≢ []
quoted_command-ne-nil [] last e = cc
quoted_command-ne-nil (arg ∷ init) last e = cc

pub parse_shell_input-quoted :
    (init : List Chars) (last : Chars)
    → parse_shell_input (quoted_command init last) ≡ action_on (init ++ last ∷ [])
unfolding parse_shell_input
parse_shell_input-quoted init last = rw (split_command_line-quoted init last) refl
