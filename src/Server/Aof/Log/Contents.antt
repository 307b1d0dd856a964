-- ===== src/Server/Aof/Log/Contents.antt =====
-- What the log's file holds after commands were appended.
use rustkv_lab.Prelude.{
  ℕ, zero, suc, ◌<◌, ◌≡◌, ◌≢◌, refl, sym, ap, ◌∙◌, true, Option, none, some, List, [], ◌∷◌, ◌++◌,
  append_assoc, append-nil, arith, Bytes, length, take,
}
use rustkv_lab.Protocol.{incomplete}
use rustkv_lab.Protocol.Parser
use rustkv_lab.Protocol.Parser.{Parse, parse_resp}
use rustkv_lab.Protocol.Parser.Decides.{parse_resp-take}
use rustkv_lab.Protocol.Parser.RoundTrip.{message_limit}
use rustkv_lab.Core.Command.{Command}
use rustkv_lab.Server.Aof.{
  AofEngine, WriteFault, at_once, late, both, part, append, append_bytes, write_all,
  command_to_resp_bytes,
}
use rustkv_lab.Server.Aof.Frames.{IsProper, ReadsBack}

-- A command with the system time when it was appended.
abbrev pub Appended : Type 0
Appended = Option ℕ × Command

abbrev pub append_all : List Appended → AofEngine → AofEngine
append_all [] engine = engine
append_all ((unix, cmd) ∷ l) engine = append_all l (append unix none cmd engine).1

abbrev pub size : Option Bytes → ℕ
size none = 0
size (some frame) = length frame

abbrev pub IsLoggable : Appended → Type 0
IsLoggable (unix, cmd) = IsProper cmd × (size (command_to_resp_bytes unix cmd) < message_limit)

abbrev pub written : Option Bytes → Bytes
written none = []
written (some frame) = frame

abbrev pub log_of : List Appended → Bytes
log_of [] = []
log_of ((unix, cmd) ∷ l) = written (command_to_resp_bytes unix cmd) ++ log_of l

pub append_bytes-contents :
    (o : Option Bytes) (engine : AofEngine)
    → engine.is_open ≡ true
    → engine.held ≡ none
    → (append_bytes none o engine).1 ≡ record engine { contents = engine.contents ++ written o }
append_bytes-contents none engine h held =
    ap (λ bytes. record engine { contents = bytes }) (sym (append-nil engine.contents))
append_bytes-contents (some frame) engine h held = rw (h, held)

pub append-contents :
    (unix : Option ℕ) (cmd : Command) (engine : AofEngine)
    → engine.is_open ≡ true
    → engine.held ≡ none
    → (append unix none cmd engine).1
      ≡ record engine { contents = engine.contents ++ written (command_to_resp_bytes unix cmd) }
unfolding append
append-contents unix cmd engine = append_bytes-contents (command_to_resp_bytes unix cmd) engine

pub append_all-contents :
    (l : List Appended) (engine : AofEngine)
    → engine.is_open ≡ true
    → engine.held ≡ none
    → append_all l engine ≡ record engine { contents = engine.contents ++ log_of l }
append_all-contents [] engine h held =
    ap (λ bytes. record engine { contents = bytes }) (sym (append-nil engine.contents))
append_all-contents ((unix, cmd) ∷ l) engine h held = rw (append-contents unix cmd engine h held) (
    append_all-contents l
      (record engine { contents = engine.contents ++ written (command_to_resp_bytes unix cmd) }) h
      held
    ∙ ap (λ bytes. record engine { contents = bytes })
        (append_assoc engine.contents (written (command_to_resp_bytes unix cmd)) (log_of l)))

abbrev pub empty_file : AofEngine
empty_file = record { contents = []; is_open = true; held = none }

pub take-ne-nil : (n : ℕ) (bytes : Bytes) → 0 < n → n < length bytes → take n bytes ≢ []
take-ne-nil zero bytes lo hi = elim lo [ ]
take-ne-nil (suc n) [] lo hi = elim hi [ ]
take-ne-nil (suc n) (b ∷ bytes) lo hi = λ e. ground (arith, e)

pub cut_short :
    (n : ℕ) (frame : Bytes) (cmd : Command)
    → n < length frame
    → ReadsBack cmd frame []
    → parse_resp (take n frame) ≡ Parser.err incomplete
cut_short n frame cmd lt (v, parsed, decoded) =
    parse_resp-take frame v (length frame) n (rw append-nil at parsed) lt

write_all-torn :
    (fault : WriteFault) (frame : Bytes) (engine : AofEngine)
    → (write_all (some fault) frame engine).1.contents ≡ engine.contents ++ take (part fault) frame
write_all-torn (at_once fault) frame engine = refl
write_all-torn (late fault) frame engine = refl
write_all-torn (both fault message) frame engine = refl

pub append_torn :
    (unix : Option ℕ) (cmd : Command) (fault : WriteFault) (frame : Bytes) (l : List Appended)
    → command_to_resp_bytes unix cmd ≡ some frame
    → (append unix (some fault) cmd (append_all l empty_file)).1.contents
      ≡ log_of l ++ take (part fault) frame
unfolding append
append_torn unix cmd fault frame l e =
    rw (append_all-contents l empty_file refl refl, e)
      (write_all-torn fault frame (record empty_file { contents = log_of l }))
