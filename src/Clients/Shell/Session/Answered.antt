-- ===== src/Clients/Shell/Session/Answered.antt =====
-- A submitted line that the server answers, and what every submission leaves of the history.
use rustkv_lab.Prelude.{
  String, ℕ, ◌+◌, ◌%◌, ◌^◌, ◌≡◌, ◌≢◌, refl, ap, ◌∙◌, true, false, none, some, List, [], ◌∷◌, ◌++◌,
  map, append_assoc, arith, Bytes, drop, Result, ok, err,
}
use rustkv_lab.Text.{codes}
use rustkv_lab.Text.Chars.{Chars, chars}
use rustkv_lab.Protocol.Resp.{RespFrame}
use rustkv_lab.Protocol.Parser
use rustkv_lab.Protocol.Parser.{parse_resp}
use rustkv_lab.Server.Connection.Chunks.{reads_of, bytes_of}
use rustkv_lab.Clients.Response.{Response, received, failed, panicked, out_of_fuel, encode_command}
use rustkv_lab.Clients.Response.Arrives.{read_response-Arrived}
use rustkv_lab.Clients.Cli.{format_resp, error_texts}
use rustkv_lab.Clients.Shell.Line.{ShellAction, send, clear, help, quit, parse_shell_input}
use rustkv_lab.Clients.Shell.App.{
  ShellApp, max_history_lines, marked, lines, push_user, push_error, push_system, push_response,
  push_each, push_history,
}
use rustkv_lab.Clients.Shell.App.Latest.{
  InBounds, latest, latest-append, push_history-latest, push_history-InBounds, push_each-latest,
  push_each-InBounds,
}
use rustkv_lab.Clients.Shell.Session.{
  ShellClient, execute, read_response_text, help_lines, Submitted, on_response, perform,
  submit_line, submit_input, trim,
}

-- The response `v` was taken from the bytes of the socket, and what follows it is kept.
pub record Replied (v : RespFrame) (n : ℕ) (all sent : Bytes) (r : Response Chars × ShellClient)
    : Type 0 where
  pub text : r.0 ≡ received (chars (format_resp v))
  pub unread : List (ℕ × Bytes)
  pub left : r.1.stream ≡ reads_of unread
  pub rest : r.1.buffer ++ bytes_of unread ≡ drop n all
  pub written : (r.1.sent ≡ sent) × (r.1.writes ≡ [])

abbrev pub at_reads : List (ℕ × Bytes) → Bytes → Bytes → ShellClient
at_reads chunks buffer sent = record {
  stream = reads_of chunks;
  buffer = buffer;
  writes = [];
  sent = sent;
}

read_response_text-Replied :
    (chunks : List (ℕ × Bytes)) (buffer sent : Bytes) (v : RespFrame) (n : ℕ)
    → parse_resp (buffer ++ bytes_of chunks) ≡ Parser.ok (v, n)
    → Replied v n
        (buffer ++ bytes_of chunks)
        sent
        (read_response_text (at_reads chunks buffer sent))
unfolding read_response_text
read_response_text-Replied chunks buffer sent v n e =
    let a = read_response-Arrived error_texts chunks buffer v n e in
    rw a.response (record {
      text = refl;
      unread = a.unread;
      left = a.left;
      rest = a.rest;
      written = (refl, refl);
    })

-- A request of a connection whose writes do not fail.
pub execute-Replied :
    (args : List Bytes) (chunks : List (ℕ × Bytes)) (buffer sent : Bytes) (v : RespFrame) (n : ℕ)
    → parse_resp (buffer ++ bytes_of chunks) ≡ Parser.ok (v, n)
    → Replied v n
        (buffer ++ bytes_of chunks)
        (sent ++ encode_command args)
        (execute args (at_reads chunks buffer sent))
unfolding execute
execute-Replied args chunks buffer sent v n e =
    read_response_text-Replied chunks buffer (sent ++ encode_command args) v n e

perform-InBounds :
    (r : Result Chars ShellAction) (app : ShellApp) (client : ShellClient)
    → InBounds app
    → InBounds (perform r app client).1
unfolding push_error push_system push_response
perform-InBounds (ok quit) app client h = h
perform-InBounds (ok clear) app client h =
    push_history-InBounds (marked "* " (codes "History cleared.")) (record app { history = [] })
perform-InBounds (ok help) app client h = push_each-InBounds "* " help_lines app h
perform-InBounds (ok (send args)) app client h = on_response-InBounds (execute args client)
  where
    on_response-InBounds :
        (r : Response Chars × ShellClient)
        → InBounds (on_response (record app { connected = true }) r).1
    on_response-InBounds (received text, c) =
        push_each-InBounds "< " (lines text)
          (record app {
            connected = true;
            request_count = (app.request_count + 1) % 2 ^ 64;
            last_error = none;
          })
          h
    on_response-InBounds (failed e, c) =
        push_history-InBounds (marked "! " (codes "request failed: " ++ chars e))
          (record app { connected = false; last_error = some (chars e) })
    on_response-InBounds (panicked, c) = h
    on_response-InBounds (out_of_fuel, c) = h
perform-InBounds (err e) app client h = push_history-InBounds (marked "! " e) app

submit_line-InBounds :
    (line : Chars) (app : ShellApp) (client : ShellClient)
    → InBounds app
    → InBounds (submit_line line app client).1
unfolding push_user
submit_line-InBounds [] app client h = h
submit_line-InBounds (c ∷ line) app client h =
    perform-InBounds (parse_shell_input (c ∷ line)) (push_user (c ∷ line) app) client
      (push_history-InBounds (marked "> " (c ∷ line)) app)

pub submit_input-InBounds :
    (app : ShellApp) (client : ShellClient) → InBounds app → InBounds (submit_input app client).1
unfolding submit_input
submit_input-InBounds app client h =
    submit_line-InBounds (trim app.input) (record app { input = [] }) client h

-- What the shell shows and has sent after a request that was answered with `v`.
pub record Answered (v : RespFrame) (n : ℕ) (line : Chars) (args : List Bytes) (all : Bytes)
    (history : List Chars) (count : ℕ) (sent : Bytes) (r : Submitted) : Type 0 where
  pub returned : r.0 ≡ received true
  pub shown :
      r.1.history
      ≡ latest max_history_lines
          (history ++ (marked "> " line ∷ map (marked "< ") (lines (chars (format_resp v)))))
  pub counted : r.1.request_count ≡ (count + 1) % 2 ^ 64
  pub online : (r.1.connected ≡ true) × (r.1.last_error ≡ none) × (r.1.input ≡ [])
  pub unread : List (ℕ × Bytes)
  pub left : r.2.stream ≡ reads_of unread
  pub rest : r.2.buffer ++ bytes_of unread ≡ drop n all
  pub written : (r.2.sent ≡ sent ++ encode_command args) × (r.2.writes ≡ [])

push_each_keeps :
    (mark : String) (ls : List Chars) (app : ShellApp)
    → ((push_each mark ls app).request_count ≡ app.request_count)
      × ((push_each mark ls app).connected ≡ app.connected)
      × ((push_each mark ls app).last_error ≡ app.last_error)
      × ((push_each mark ls app).input ≡ app.input)
unfolding push_each push_history
push_each_keeps mark [] app = (refl, refl, refl, refl)
push_each_keeps mark (line ∷ ls) app = push_each_keeps mark ls (push_history (marked mark line) app)

abbrev asked : Chars → ShellApp → ShellApp
asked line app = record (push_user line (record app { input = [] })) { connected = true }

abbrev shown_after : Chars → List Chars → ShellApp → List Chars
shown_after line answer app =
    latest max_history_lines (app.history ++ (marked "> " line ∷ map (marked "< ") answer))

push-shown :
    (line : Chars) (answer : List Chars) (app before : ShellApp)
    → app.history ≡ (push_history (marked "> " line) before).history
    → (push_each "< " answer app).history ≡ shown_after line answer before
push-shown line answer app before e =
    let pushed = push_history-latest (marked "> " line) before in
    push_each-latest "< " answer app (rw e (push_history-InBounds (marked "> " line) before))
    ∙ rw (e, pushed)
        (latest-append max_history_lines (before.history ++ marked "> " line ∷ [])
            (map (marked "< ") answer)
          ∙ rw append_assoc refl)

on_response-Answered :
    (v : RespFrame) (n : ℕ) (line : Chars) (args : List Bytes) (all sent : Bytes)
    (before : ShellApp) (r : Response Chars × ShellClient)
    → Replied v n all (sent ++ encode_command args) r
    → Answered v n line args all before.history before.request_count sent
        (on_response (asked line before) r)
unfolding push_response push_user push_history
on_response-Answered v n line args all sent before (received t, client) i =
    let same : t ≡ chars (format_resp v) = ground (arith, i.text) in
    let app : ShellApp = record (asked line before) {
      request_count = (before.request_count + 1) % 2 ^ 64;
      last_error = none;
    } in
    let keeps = push_each_keeps "< " (lines t) app in
    record {
      returned = refl;
      shown =
          push-shown line (lines t) app before refl
          ∙ ap (λ u. shown_after line (lines u) before) same;
      counted = keeps.0;
      online = (keeps.1, keeps.2, keeps.3);
      unread = i.unread;
      left = i.left;
      rest = i.rest;
      written = i.written;
    }
on_response-Answered v n line args all sent before (failed t, client) i =
    absurd (ground (arith, i.text))
on_response-Answered v n line args all sent before (panicked, client) i =
    absurd (ground (arith, i.text))
on_response-Answered v n line args all sent before (out_of_fuel, client) i =
    absurd (ground (arith, i.text))

submit_line-Answered :
    (v : RespFrame) (n : ℕ) (line : Chars) (args : List Bytes) (chunks : List (ℕ × Bytes))
    (buffer sent : Bytes) (app : ShellApp)
    → line ≢ []
    → parse_shell_input line ≡ ok (send args)
    → parse_resp (buffer ++ bytes_of chunks) ≡ Parser.ok (v, n)
    → Answered v n line args
        (buffer ++ bytes_of chunks)
        app.history
        app.request_count
        sent
        (submit_line line (record app { input = [] }) (at_reads chunks buffer sent))
submit_line-Answered v n [] args chunks buffer sent app h e p = absurd (h refl)
submit_line-Answered v n (c ∷ line) args chunks buffer sent app h e p = rw e (
    on_response-Answered v n (c ∷ line) args (buffer ++ bytes_of chunks) sent app
      (execute args (at_reads chunks buffer sent)) (execute-Replied args chunks buffer sent v n p))

-- A line that makes a request, which is answered, is sent, shown and counted.
pub submit_input-Answered :
    (v : RespFrame) (n : ℕ) (args : List Bytes) (chunks : List (ℕ × Bytes)) (buffer sent : Bytes)
    (app : ShellApp)
    → trim app.input ≢ []
    → parse_shell_input (trim app.input) ≡ ok (send args)
    → parse_resp (buffer ++ bytes_of chunks) ≡ Parser.ok (v, n)
    → Answered v n
        (trim app.input)
        args
        (buffer ++ bytes_of chunks)
        app.history
        app.request_count
        sent
        (submit_input app (at_reads chunks buffer sent))
unfolding submit_input
submit_input-Answered v n args chunks buffer sent app =
    submit_line-Answered v n (trim app.input) args chunks buffer sent app
