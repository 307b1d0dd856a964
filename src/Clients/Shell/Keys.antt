-- ===== src/Clients/Shell/Keys.antt =====
-- `run_loop`. The terminal is the list of the events that it reports; what is drawn in each round
-- stands in `App`.
pub mod Typed
use rustkv_lab.Prelude.{ℕ, Bool, true, false, ◌&&◌, List, [], ◌∷◌, ◌++◌, Bytes, ◌==◌, if◌then◌else◌}
use rustkv_lab.Text.Chars.{Chars}
use rustkv_lab.Clients.Response
use rustkv_lab.Clients.Response.{received}
use rustkv_lab.Clients.Shell.App.{ShellApp}
use rustkv_lab.Clients.Shell.Session.{ShellClient, Submitted, submit_input}

pub data KeyCode : Type 0 where
  esc : KeyCode
  backspace : KeyCode
  enter : KeyCode
  char : ℕ → KeyCode
  other : KeyCode

pub record KeyEvent : Type 0 where
  pub code : KeyCode
  pub control : Bool
  -- not a repeat, nor a release
  pub press : Bool

-- One round of the loop: nothing to read in time, an error, an event that is no key, or a key.
pub data Event : Type 0 where
  quiet : Event
  unreadable : Bytes → Event
  unrelated : Event
  key : KeyEvent → Event

-- `String::pop`
pop : Chars → Chars
pop [] = []
pop (c ∷ []) = []
pop (c ∷ d ∷ s) = c ∷ pop (d ∷ s)

-- How the loop ends: it was left, an error, a panic, or it runs when the events are used up.
pub data Ended : Type 0 where
  left : Ended
  failed : Bytes → Ended
  panicked : Ended
  out_of_fuel : Ended
  running : Ended

abbrev pub Session : Type 0
Session = Ended × ShellApp × ShellClient

abbrev pub after_submit : (ShellApp → ShellClient → Session) → Submitted → Session
after_submit next (received true, app, client) = next app client
after_submit next (received false, app, client) = (left, app, client)
after_submit next (Response.failed error, app, client) = (Ended.failed error, app, client)
after_submit next (Response.panicked, app, client) = (Ended.panicked, app, client)
after_submit next (Response.out_of_fuel, app, client) = (Ended.out_of_fuel, app, client)

abbrev insert_char : ℕ → ShellApp → ShellApp
insert_char ch app = record app { input = app.input ++ ch ∷ [] }

-- The `match key.code`.
pub on_key : (ShellApp → ShellClient → Session) → KeyCode → Bool → ShellApp → ShellClient → Session
unfolding submit_input pop
on_key next esc control app client = (left, app, client)
on_key next backspace control app client = next (record app { input = pop app.input }) client
on_key next enter control app client = after_submit next (submit_input app client)
on_key next (char ch) control app client =
    if control && ch == b'c'
    then (left, app, client)
    else if control && ch == b'u'
    then next (record app { input = [] }) client
    else next (insert_char ch app) client
on_key next other control app client = next app client

unfoldable pub run_loop : List Event → ShellApp → ShellClient → Session
unfolding on_key
run_loop [] app client = (running, app, client)
run_loop (quiet ∷ events) app client = run_loop events app client
run_loop (unreadable error ∷ events) app client = (Ended.failed error, app, client)
run_loop (unrelated ∷ events) app client = run_loop events app client
run_loop (key k ∷ events) app client =
    let next = run_loop events in
    if k.press then on_key next k.code k.control app client else next app client
