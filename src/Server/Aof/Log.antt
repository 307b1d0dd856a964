-- ===== src/Server/Aof/Log.antt =====
-- Loading a log that the server wrote runs the logged commands again, also where the last append
-- was cut short.
pub mod Contents
use rustkv_lab.Prelude.{
  ℕ, zero, suc, ◌+◌, ◌<◌, ◌≡◌, ◌≢◌, refl, sym, ap, ◌∙◌, true, Option, none, some, List, [], ◌∷◌,
  ◌++◌, append_assoc, append-nil, arith, Bytes, length, length-append, take, drop-append, ok, err,
  All,
}
use rustkv_lab.Text.{codes}
use rustkv_lab.Protocol.{incomplete}
use rustkv_lab.Protocol.Parser
use rustkv_lab.Protocol.Parser.{Parse, parse_resp}
use rustkv_lab.Protocol.Parser.Decides.{parse_resp-front, parse_resp-take}
use rustkv_lab.Protocol.Parser.RoundTrip.{message_limit}
use rustkv_lab.Core.Time.{Clock, returned, panicked}
use rustkv_lab.Core.Sharded.{ShardedDatabase}
use rustkv_lab.Core.Command.{Command}
use rustkv_lab.Core.Executor.{protocol_to_string}
use rustkv_lab.Server.Aof.{
  AofEngine, WriteFault, part, append, append_bytes, Loaded, loaded, failed, after_replay,
  command_to_resp_bytes, replay_command, load_loop, load_and_replay,
}
use rustkv_lab.Server.Aof.Frames.{absolute, IsProper, ReadsBack, command_to_resp_bytes-ReadsBack}
use rustkv_lab.Server.Aof.Log.Contents.{
  append_bytes-contents, append-contents, append_all-contents, take-ne-nil, cut_short, append_torn,
}
pub use rustkv_lab.Server.Aof.Log.Contents.{
  Appended, append_all, size, IsLoggable, written, log_of, empty_file,
}

module _ (hash : Bytes → ℕ) (clock : ℕ → Clock) where
  -- The commands run one after the other in their absolute forms, each at its offset in the log,
  -- and then what `last` says; a command that fails or panics ends it.
  abbrev pub replay_frame :
      Option Bytes → Command → ℕ → (ℕ → ShardedDatabase → Loaded) → ShardedDatabase → Loaded
  replay_frame none cmd offset next db = next offset db
  replay_frame (some frame) cmd offset next db =
      after_replay hash (next (offset + length frame)) (replay_command hash (clock offset) cmd db)

  abbrev pub replay_log : List Appended → (ShardedDatabase → Loaded) → ℕ → ShardedDatabase → Loaded
  replay_log [] last offset db = last db
  replay_log ((unix, cmd) ∷ l) last offset db =
      replay_frame (command_to_resp_bytes unix cmd) (absolute unix cmd) offset (replay_log l last)
        db

  -- The loop, on a tail of the log, with enough fuel.
  abbrev pub EndsAs : Bytes → (ℕ → ShardedDatabase → Loaded) → Type 0
  EndsAs rest last =
      (fuel offset : ℕ) (db : ShardedDatabase)
      → length rest < fuel
      → load_loop hash fuel clock rest offset db ≡ last offset db

  after_replay-same :
      (next next' : ShardedDatabase → Loaded) (r : _)
      → ((db : ShardedDatabase) → next db ≡ next' db)
      → after_replay hash next r ≡ after_replay hash next' r
  after_replay-same next next' (panicked, db) h = refl
  after_replay-same next next' (returned (err m), db) h = refl
  after_replay-same next next' (returned (ok u), db) h = h db

  load_loop-step :
      (cmd : Command) (frame rest : Bytes) (next : ℕ → ShardedDatabase → Loaded)
      → ReadsBack cmd frame rest
      → EndsAs rest next
      → EndsAs (frame ++ rest) (λ offset. replay_frame (some frame) cmd offset next)
  unfolding load_loop
  load_loop-step cmd frame rest next back ends zero offset db h = elim h [ ]
  load_loop-step cmd [] rest next (v, parsed, decoded) ends (suc fuel) offset db h =
      absurd (omega (arith, (parse_resp-front rest v 0 parsed).0))
  load_loop-step cmd (b ∷ f) rest next (v, parsed, decoded) ends (suc fuel) offset db h =
      rw (parsed, decoded)
        (after_replay-same _ (next (offset + length (b ∷ f)))
          (replay_command hash (clock offset) cmd db)
          (λ db'.
            rw (drop-append (b ∷ f) rest)
              (ends fuel (offset + length (b ∷ f)) db' (omega (arith, length-append f rest)))))

  step_of :
      (unix : Option ℕ) (cmd : Command) (o : Option Bytes) (rest : Bytes)
      (next : ℕ → ShardedDatabase → Loaded)
      → IsLoggable (unix, cmd)
      → command_to_resp_bytes unix cmd ≡ o
      → EndsAs rest next
      → EndsAs (written o ++ rest) (λ offset. replay_frame o (absolute unix cmd) offset next)
  step_of unix cmd none rest next w e ends = ends
  step_of unix cmd (some frame) rest next w e ends =
      load_loop-step (absolute unix cmd) frame rest next
        (command_to_resp_bytes-ReadsBack unix cmd frame rest w.0 e (omega (arith, w.1, ap size e)))
        ends

  load_loop-log :
      (l : List Appended) (tail : Bytes) (last : ShardedDatabase → Loaded)
      → All IsLoggable l
      → EndsAs tail (λ offset. last)
      → EndsAs (log_of l ++ tail) (replay_log l last)
  load_loop-log [] tail last w ends = ends
  load_loop-log ((unix, cmd) ∷ l) tail last w ends =
      let rest = log_of l ++ tail in
      rw (append_assoc (written (command_to_resp_bytes unix cmd)) (log_of l) tail) (
        step_of unix cmd (command_to_resp_bytes unix cmd) rest (replay_log l last) w.0 refl
          (load_loop-log l tail last w.1 ends))

  pub nothing_left : EndsAs [] (λ offset. loaded)
  unfolding load_loop
  nothing_left zero offset db h = elim h [ ]
  nothing_left (suc fuel) offset db h = refl

  abbrev pub torn : ShardedDatabase → Loaded
  torn = failed (codes "failed to parse AOF RESP command: " ++ protocol_to_string incomplete)

  torn_frame :
      (tail : Bytes)
      → tail ≢ []
      → parse_resp tail ≡ Parser.err incomplete
      → EndsAs tail (λ offset. torn)
  unfolding load_loop
  torn_frame tail ne e zero offset db h = elim h [ ]
  torn_frame [] ne e (suc fuel) offset db h = absurd (ne refl)
  torn_frame (b ∷ tail) ne e (suc fuel) offset db h = rw e

  pub load_file :
      (l : List Appended) (tail contents : Bytes) (last : ShardedDatabase → Loaded)
      (db : ShardedDatabase)
      → All IsLoggable l
      → EndsAs tail (λ offset. last)
      → contents ≡ log_of l ++ tail
      → load_and_replay hash clock (ok (some contents)) db ≡ replay_log l last 0 db
  unfolding load_and_replay
  load_file l tail contents last db w ends e =
      rw e (load_loop-log l tail last w ends (suc (length (log_of l ++ tail))) 0 db (omega arith))

  -- Loading a log, to which commands were appended from an empty file on, runs these commands again
  -- in their order, in their absolute forms; the commands that only read are not run again.
  pub load_and_replay-append :
      (l : List Appended) (db : ShardedDatabase)
      → All IsLoggable l
      → load_and_replay hash clock (ok (some (append_all l empty_file).contents)) db
        ≡ replay_log l loaded 0 db
  load_and_replay-append l db w =
      load_file l [] _ loaded db w nothing_left
        (rw (append_all-contents l empty_file refl refl) (sym (append-nil (log_of l))))

  -- If after the frames of logged commands only a part of a last command's frame was written,
  -- loading runs the commands before it, and then fails: the server does not start on such a log.
  -- The commands' keys are UTF-8, their times of 64 bits, and their frames below 2^59 bytes.
  pub load_and_replay-torn :
      (l : List Appended) (unix : Option ℕ) (cmd : Command) (fault : WriteFault) (frame : Bytes)
      (db : ShardedDatabase)
      → All IsLoggable l
      → IsLoggable (unix, cmd)
      → command_to_resp_bytes unix cmd ≡ some frame
      → 0 < part fault
      → part fault < length frame
      → load_and_replay hash clock
          (ok (some (append unix (some fault) cmd (append_all l empty_file)).1.contents))
          db
        ≡ replay_log l torn 0 db
  load_and_replay-torn l unix cmd fault frame db w w' e lo hi =
      load_file l (take (part fault) frame) _ torn db w
        (torn_frame (take (part fault) frame) (take-ne-nil (part fault) frame lo hi) (
          cut_short (part fault) frame (absolute unix cmd) hi (
            command_to_resp_bytes-ReadsBack unix cmd frame [] w'.0 e
              (omega (arith, w'.1, ap size e)))))
        (append_torn unix cmd fault frame l e)
