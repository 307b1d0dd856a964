-- ===== src/Clients/Shell/Session.antt =====
-- `ShellClient` with its one connection, and `submit_input`.
pub mod Answered
pub mod Trimmed
use rustkv_lab.Prelude.{
  ℕ, ◌+◌, ◌%◌, ◌^◌, Bool, true, false, ◌&&◌, Option, none, some, List, [], ◌∷◌, ◌++◌, Bytes, ◌==◌,
  if◌then◌else◌, drop, Result, ok, err,
}
use rustkv_lab.Text.{codes}
use rustkv_lab.Text.Chars.{Chars, chars, is_whitespace}
use rustkv_lab.Protocol.Resp.{RespFrame}
use rustkv_lab.Clients.Response
use rustkv_lab.Clients.Response.{
  Response, received, failed, panicked, out_of_fuel, Received, read_response, encode_command,
}
use rustkv_lab.Clients.Cli.{format_resp, error_texts}
use rustkv_lab.Clients.Shell.Line.{ShellAction, send, clear, help, quit, parse_shell_input}
use rustkv_lab.Clients.Shell.App
use rustkv_lab.Clients.Shell.App.{
  ShellApp, push_user, push_error, push_system, push_each, push_response,
}

pub record ShellClient : Type 0 where
  pub stream : List (Result Bytes Bytes)
  pub buffer : Bytes
  -- how the writes to come end: `some` is an error
  pub writes : List (Option Bytes)
  -- what was written
  pub sent : Bytes

abbrev with_text :
    ShellClient → Received (RespFrame × ℕ) → Response (RespFrame × ℕ) → Response Chars × ShellClient
with_text client r (received (frame, consumed)) = (
  received (chars (format_resp frame)),
  record client { stream = r.stream; buffer = drop consumed r.buffer },
)
with_text client r (failed text) =
    (failed text, record client { stream = r.stream; buffer = r.buffer })
with_text client r panicked = (panicked, record client { stream = r.stream; buffer = r.buffer })
with_text client r out_of_fuel =
    (out_of_fuel, record client { stream = r.stream; buffer = r.buffer })

unfoldable pub read_response_text : ShellClient → Response Chars × ShellClient
unfolding read_response format_resp chars
read_response_text client =
    let r = read_response error_texts client.stream client.buffer in with_text client r r.response

abbrev wrote : Bytes → List (Option Bytes) → ShellClient → ShellClient
wrote request writes client = record client { writes = writes; sent = client.sent ++ request }

unfoldable pub execute : List Bytes → ShellClient → Response Chars × ShellClient
unfolding read_response_text encode_command
execute args client = elim client.writes [
  | [] ↦ read_response_text (wrote (encode_command args) [] client)
  | none ∷ writes ↦ read_response_text (wrote (encode_command args) writes client)
  | some message ∷ writes ↦ (failed message, record client { writes = writes })
]

-- `trim`
trim_start : Chars → Chars
unfolding is_whitespace
trim_start [] = []
trim_start (c ∷ s) = if is_whitespace c then trim_start s else c ∷ s

abbrev unless_blank : ℕ → Chars → Chars
unless_blank c [] = if is_whitespace c then [] else c ∷ []
unless_blank c (d ∷ s) = c ∷ d ∷ s

trim_end : Chars → Chars
unfolding is_whitespace
trim_end [] = []
trim_end (c ∷ s) = unless_blank c (trim_end s)

unfoldable pub trim : Chars → Chars
unfolding trim_start trim_end
trim s = trim_end (trim_start s)

abbrev pub help_lines : List Chars
help_lines =
    codes "Examples:"
    ∷ codes "  ping"
    ∷ codes "  set name rust"
    ∷ codes "  set greeting \"hello rust\""
    ∷ codes "  get name"
    ∷ codes "  del name"
    ∷ codes "  expire name 30"
    ∷ codes "  ttl name"
    ∷ codes "  info"
    ∷ codes "Local commands: help, clear, quit"
    ∷ []

abbrev pub Submitted : Type 0
Submitted = Response Bool × ShellApp × ShellClient

-- The `match client.execute(&args).await`. The release build's sum wraps around.
abbrev pub on_response : ShellApp → Response Chars × ShellClient → Submitted
on_response app (received response, client) = (
  received true,
  push_response response
      (record app { request_count = (app.request_count + 1) % 2 ^ 64; last_error = none }),
  client,
)
on_response app (failed error, client) = (
  received true,
  push_error (codes "request failed: " ++ chars error)
      (record app { connected = false; last_error = some (chars error) }),
  client,
)
on_response app (panicked, client) = (panicked, app, client)
on_response app (out_of_fuel, client) = (out_of_fuel, app, client)

abbrev pub perform : Result Chars ShellAction → ShellApp → ShellClient → Submitted
perform (ok quit) app client = (received false, app, client)
perform (ok clear) app client =
    (received true, push_system (codes "History cleared.") (record app { history = [] }), client)
perform (ok help) app client = (received true, push_each "* " help_lines app, client)
perform (ok (send args)) app client =
    on_response (record app { connected = true }) (execute args client)
perform (err error) app client = (received true, push_error error app, client)

abbrev pub submit_line : Chars → ShellApp → ShellClient → Submitted
submit_line [] app client = (received true, app, client)
submit_line (c ∷ line) app client =
    perform (parse_shell_input (c ∷ line)) (push_user (c ∷ line) app) client

unfoldable pub submit_input : ShellApp → ShellClient → Submitted
unfolding trim execute parse_shell_input push_user push_error push_system push_each push_response
    chars
submit_input app client = submit_line (trim app.input) (record app { input = [] }) client

-- What `run_shell` shows first.
unfoldable pub greeted : Chars → ShellApp
unfolding App.new push_system
greeted addr =
    push_system (codes "Type help for commands, quit to leave the shell.")
      (push_system (codes "Connected with one persistent TCP session.") (App.new addr))
