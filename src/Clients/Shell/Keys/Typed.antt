-- ===== src/Clients/Shell/Keys/Typed.antt =====
-- Typing a command and pressing Enter; what a session leaves of the history.
use rustkv_lab.Prelude.{
  ℕ, ◌≡◌, refl, sym, subst, ap, ◌∙◌, Bool, true, false, Bool-cases, inl, inr, ◌&&◌, ◌==◌, List, [],
  ◌∷◌, ◌++◌, map, append-nil, append_assoc, arith, Bytes, ok,
}
use rustkv_lab.Text.Chars.{Chars}
use rustkv_lab.Protocol.Resp.{RespFrame}
use rustkv_lab.Protocol.Parser
use rustkv_lab.Protocol.Parser.{parse_resp}
use rustkv_lab.Server.Connection.Chunks.{bytes_of}
use rustkv_lab.Clients.Response
use rustkv_lab.Clients.Response.{received}
use rustkv_lab.Clients.Shell.Line.{send, action_on, parse_shell_input}
use rustkv_lab.Clients.Shell.App.{ShellApp}
use rustkv_lab.Clients.Shell.App.Latest.{InBounds}
use rustkv_lab.Clients.Shell.Session.{ShellClient, Submitted, submit_input, trim}
use rustkv_lab.Clients.Shell.Session.Answered.{
  at_reads, Answered, submit_input-Answered, submit_input-InBounds,
}
use rustkv_lab.Clients.Shell.Session.Trimmed.{
  quoted_command, trim-quoted, quoted_command-ne-nil, parse_shell_input-quoted,
}
use rustkv_lab.Clients.Shell.Keys.{
  KeyCode, Event, esc, backspace, enter, char, other, quiet, unreadable, unrelated, key, Session,
  after_submit, on_key, run_loop,
}

after_submit-InBounds :
    (next : ShellApp → ShellClient → Session)
    → ((app : ShellApp) (client : ShellClient) → InBounds app → InBounds (next app client).1)
    → (r : Submitted) → InBounds r.1
    → InBounds (after_submit next r).1
after_submit-InBounds next keep (received true, app, client) h = keep app client h
after_submit-InBounds next keep (received false, app, client) h = h
after_submit-InBounds next keep (Response.failed e, app, client) h = h
after_submit-InBounds next keep (Response.panicked, app, client) h = h
after_submit-InBounds next keep (Response.out_of_fuel, app, client) h = h

on_key-InBounds :
    (next : ShellApp → ShellClient → Session)
    → ((app : ShellApp) (client : ShellClient) → InBounds app → InBounds (next app client).1)
    → (code : KeyCode) (control : Bool) (app : ShellApp) (client : ShellClient) → InBounds app
    → InBounds (on_key next code control app client).1
unfolding on_key
on_key-InBounds next keep esc control app client h = h
on_key-InBounds next keep backspace control app client h = keep _ client h
on_key-InBounds next keep enter control app client h =
    after_submit-InBounds next keep (submit_input app client) (submit_input-InBounds app client h)
on_key-InBounds next keep (char ch) control app client h =
    elim (Bool-cases (control && ch == b'c')) [
      | inl e ↦ rw e h
      | inr e ↦ rw e (elim (Bool-cases (control && ch == b'u')) [
        | inl e' ↦ rw e' (keep (record app { input = [] }) client h)
        | inr e' ↦ rw e' (keep (record app { input = app.input ++ ch ∷ [] }) client h)
      ])
    ]
on_key-InBounds next keep other control app client h = keep app client h

-- Whatever events a session handles, the shell's history, once at most its maximum of lines, stays
-- so.
pub run_loop-InBounds :
    (events : List Event) (app : ShellApp) (client : ShellClient)
    → InBounds app
    → InBounds (run_loop events app client).1
unfolding run_loop
run_loop-InBounds [] app client h = h
run_loop-InBounds (quiet ∷ events) app client h = run_loop-InBounds events app client h
run_loop-InBounds (unreadable e ∷ events) app client h = h
run_loop-InBounds (unrelated ∷ events) app client h = run_loop-InBounds events app client h
run_loop-InBounds (key k ∷ events) app client h = elim (Bool-cases k.press) [
  | inl e ↦
      rw e
        (on_key-InBounds (run_loop events) (run_loop-InBounds events) k.code k.control app client h)
  | inr e ↦ rw e (run_loop-InBounds events app client h)
]

abbrev pub press : KeyCode → Event
press code = key (record { code = code; control = false; press = true })

abbrev pub presses : Chars → List Event
presses = map (λ ch. press (char ch))

run_loop-presses :
    (line : Chars) (events : List Event) (app : ShellApp) (client : ShellClient)
    → run_loop (presses line ++ events) app client
      ≡ run_loop events (record app { input = app.input ++ line }) client
unfolding run_loop on_key
run_loop-presses [] events app client = rw append-nil refl
run_loop-presses (ch ∷ line) events app client =
    run_loop-presses line events (record app { input = app.input ++ ch ∷ [] }) client
    ∙ rw append_assoc refl

submit_typed :
    (line : Chars) (events : List Event) (app : ShellApp) (client : ShellClient)
    → run_loop (presses line ++ (press enter ∷ events)) app client
      ≡ after_submit
          (run_loop events)
          (submit_input (record app { input = app.input ++ line }) client)
unfolding on_key run_loop
submit_typed line events app client = run_loop-presses line (press enter ∷ events) app client

-- The session goes on from a submission that was answered.
abbrev pub GoesOn :
    RespFrame → ℕ → Chars → List Bytes → Bytes → ShellApp → Bytes → List Event → Session → Type 0
GoesOn v n line args all before sent events session =
    (r : Submitted) × Answered v n line args all before.history before.request_count sent r
    × (session ≡ run_loop events r.1 r.2)

goes_on :
    (v : RespFrame) (n : ℕ) (line : Chars) (args : List Bytes) (all : Bytes) (before : ShellApp)
    (sent : Bytes) (events : List Event) (r : Submitted)
    → Answered v n line args all before.history before.request_count sent r
    → GoesOn v n line args all before sent events (after_submit (run_loop events) r)
goes_on v n line args all before sent events (received true, app, client) a =
    ((received true, app, client), a, refl)
goes_on v n line args all before sent events (received false, app, client) a =
    absurd (ground (arith, a.returned))
goes_on v n line args all before sent events (Response.failed e, app, client) a =
    absurd (ground (arith, a.returned))
goes_on v n line args all before sent events (Response.panicked, app, client) a =
    absurd (ground (arith, a.returned))
goes_on v n line args all before sent events (Response.out_of_fuel, app, client) a =
    absurd (ground (arith, a.returned))

-- The user types, into an empty input line, arguments in quotation marks that make a request, and
-- presses Enter, and what is buffered and still to come begins with a reply: the shell sends the
-- request's frame, shows the line and the reply in its history, keeps the bytes behind the reply,
-- and goes on with the next events.
pub run_loop-typed :
    (init : List Chars) (last : Chars) (args : List Bytes) (events : List Event) (app : ShellApp)
    (chunks : List (ℕ × Bytes)) (buffer sent : Bytes) (v : RespFrame) (n : ℕ)
    → app.input ≡ []
    → action_on (init ++ last ∷ []) ≡ ok (send args)
    → parse_resp (buffer ++ bytes_of chunks) ≡ Parser.ok (v, n)
    → GoesOn v n (quoted_command init last) args (buffer ++ bytes_of chunks) app sent events (
        run_loop
          (presses (quoted_command init last) ++ (press enter ∷ events))
          app
          (at_reads chunks buffer sent))
run_loop-typed init last args events app chunks buffer sent v n clear remote p =
    let line = quoted_command init last in
    let typed : ShellApp = record app { input = app.input ++ line } in
    let at_line : typed.input ≡ line = ap (λ s. s ++ line) clear in
    let trimmed : trim typed.input ≡ line = ap trim at_line ∙ trim-quoted init last in
    let answered =
      submit_input-Answered v n args chunks buffer sent typed
        (λ e. quoted_command-ne-nil init last (sym trimmed ∙ e))
        (ap parse_shell_input trimmed ∙ parse_shell_input-quoted init last ∙ remote) p in
    rw (submit_typed line events app (at_reads chunks buffer sent)) (
      goes_on v n line args (buffer ++ bytes_of chunks) app sent events
        (submit_input typed (at_reads chunks buffer sent))
        (subst
          (λ l.
            Answered v n l args (buffer ++ bytes_of chunks) app.history app.request_count sent
              (submit_input typed (at_reads chunks buffer sent)))
          trimmed answered))
