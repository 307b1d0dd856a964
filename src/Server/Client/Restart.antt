-- ===== src/Server/Client/Restart.antt =====
-- A server that starts again on the log of another that handled frames: which commands it runs.
use rustkv_lab.Prelude.{
  ℕ, ◌<◌, ◌≡◌, refl, sym, subst, ◌∙◌, ap, none, some, List, [], ◌∷◌, map, Bytes, ok, err, All,
}
use rustkv_lab.Protocol.Resp.{RespFrame}
use rustkv_lab.Protocol.Parser
use rustkv_lab.Protocol.Parser.{Parse, parse_resp}
use rustkv_lab.Protocol.Parser.RoundTrip.{message_limit}
use rustkv_lab.Core.Error.{KvResult}
use rustkv_lab.Core.Time.{Clock}
use rustkv_lab.Core.Command.{Command, from_resp}
use rustkv_lab.Core.Sharded.{ShardedDatabase}
use rustkv_lab.Core.Stats.{ServerStats, ServerStatsSnapshot}
use rustkv_lab.Server.Aof.{AofEngine, load_and_replay, command_to_resp_bytes}
use rustkv_lab.Server.Aof.Frames.{IsProper}
use rustkv_lab.Server.Aof.Proper.{from_resp-IsProper}
use rustkv_lab.Server.Aof.Log.{size, IsLoggable, empty_file}
use rustkv_lab.Server.Client.{
  Reading, Server, Parsed, command, refused, parsed, decoded, parse_command, handle_parsed,
  handle_frame,
}
use rustkv_lab.Server.Client.Reruns.{Reruns, logged_forms, replay_log-Reruns}
use rustkv_lab.Server.Client.Recovery.{Handled, appended, IsClean, handle_all, handle_all-recovers}

-- A frame, with what its work reads.
abbrev pub Framed : Type 0
Framed = Reading × Bytes

abbrev handled_by : Reading → Parsed → List Handled → List Handled
handled_by now (command cmd) rest = (now, cmd) ∷ rest
handled_by now (refused message) rest = rest
handled_by now Parsed.crashed rest = rest
handled_by now Parsed.out_of_fuel rest = rest

-- The commands that are read of the frames.
abbrev pub handled : List Framed → List Handled
handled [] = []
handled ((now, frame) ∷ l) = handled_by now (parse_command frame) (handled l)

-- The disk takes every write.
abbrev pub IsTaken : Framed → Type 0
IsTaken (now, frame) = now.fault ≡ none

abbrev pub HasRoom : Handled → Type 0
HasRoom (now, cmd) = size (command_to_resp_bytes now.unix cmd) < message_limit

abbrev ReadsProper : Parsed → Type 0
ReadsProper (command cmd) = IsProper cmd
ReadsProper (refused message) = Unit
ReadsProper Parsed.crashed = Unit
ReadsProper Parsed.out_of_fuel = Unit

decoded-ReadsProper :
    (r : KvResult Command) → ((cmd : Command) → r ≡ ok cmd → IsProper cmd) → ReadsProper (decoded r)
decoded-ReadsProper (ok cmd) h = h cmd refl
decoded-ReadsProper (err e) h = tt

parsed-ReadsProper : (r : Parse (RespFrame × ℕ)) → ReadsProper (parsed r)
parsed-ReadsProper (Parser.ok (resp, n)) =
    decoded-ReadsProper (from_resp resp) (from_resp-IsProper resp)
parsed-ReadsProper (Parser.err e) = tt
parsed-ReadsProper Parser.panicked = tt
parsed-ReadsProper Parser.out_of_fuel = tt

parse_command-ReadsProper : (frame : Bytes) → ReadsProper (parse_command frame)
unfolding parse_command
parse_command-ReadsProper frame = parsed-ReadsProper (parse_resp frame)

handled_by-IsLoggable :
    (now : Reading) (p : Parsed) (rest : List Handled)
    → ReadsProper p
    → All HasRoom (handled_by now p rest)
    → (All HasRoom rest → All IsLoggable (map appended rest))
    → All IsLoggable (map appended (handled_by now p rest))
handled_by-IsLoggable now (command cmd) rest proper room k = ((proper, room.0), k room.1)
handled_by-IsLoggable now (refused message) rest proper room k = k room
handled_by-IsLoggable now Parsed.crashed rest proper room k = k room
handled_by-IsLoggable now Parsed.out_of_fuel rest proper room k = k room

handled-IsLoggable :
    (l : List Framed) → All HasRoom (handled l) → All IsLoggable (map appended (handled l))
handled-IsLoggable [] room = tt
handled-IsLoggable ((now, frame) ∷ l) room =
    handled_by-IsLoggable now (parse_command frame) (handled l) (parse_command-ReadsProper frame)
      room (handled-IsLoggable l)

handled_by-IsClean :
    (now : Reading) (p : Parsed) (rest : List Handled)
    → now.fault ≡ none
    → All IsClean rest
    → All IsClean (handled_by now p rest)
handled_by-IsClean now (command cmd) rest e h = (e, h)
handled_by-IsClean now (refused message) rest e h = h
handled_by-IsClean now Parsed.crashed rest e h = h
handled_by-IsClean now Parsed.out_of_fuel rest e h = h

handled-IsClean : (l : List Framed) → All IsTaken l → All IsClean (handled l)
handled-IsClean [] h = tt
handled-IsClean ((now, frame) ∷ l) h =
    handled_by-IsClean now (parse_command frame) (handled l) h.0 (handled-IsClean l h.1)

module _ (hash : Bytes → ℕ) (to_json_string : ServerStatsSnapshot → KvResult Bytes) where
  -- The frames in the order in which the server handles them, of whichever clients.
  abbrev pub handle_frames : List Framed → Server → Server
  handle_frames [] s = s
  handle_frames ((now, frame) ∷ l) s =
      handle_frames l (handle_frame hash to_json_string now frame s).1

  handle_all-handled_by :
      (now : Reading) (p : Parsed) (rest : List Handled) (s : Server)
      → handle_all hash to_json_string (handled_by now p rest) s
        ≡ handle_all hash to_json_string rest (handle_parsed hash to_json_string now p s).1
  handle_all-handled_by now (command cmd) rest s = refl
  handle_all-handled_by now (refused message) rest s = refl
  handle_all-handled_by now Parsed.crashed rest s = refl
  handle_all-handled_by now Parsed.out_of_fuel rest s = refl

  handle_frames-handled :
      (l : List Framed) (s : Server)
      → handle_frames l s ≡ handle_all hash to_json_string (handled l) s
  unfolding handle_frame
  handle_frames-handled [] s = refl
  handle_frames-handled ((now, frame) ∷ l) s =
      handle_frames-handled l (handle_frame hash to_json_string now frame s).1
      ∙ sym (handle_all-handled_by now (parse_command frame) (handled l) s)

  -- A server with an empty log handles frames of any bytes, in the order in which they come from
  -- whichever clients, and the disk takes every write. A server that then loads the log does to its
  -- store what `execute_command` does, for the write commands among those that were read of the
  -- frames, one after the other, their times made absolute: it runs all of them, or up to the first
  -- that panics or answers an error, where the loading crashes or fails. Each command's frame in
  -- the log is below 2^59 bytes.
  pub handle_frames-recovers :
      (l : List Framed) (s : Server) (aof : AofEngine) (clock : ℕ → Clock) (stats : ServerStats)
      (db : ShardedDatabase)
      → s.aof ≡ some empty_file
      → All IsTaken l
      → All HasRoom (handled l)
      → (handle_frames l s).aof ≡ some aof
      → Reruns hash to_json_string clock stats
          (logged_forms (map appended (handled l)))
          db
          (load_and_replay hash clock (ok (some aof.contents)) db)
  handle_frames-recovers l s aof clock stats db e taken room e' =
      let same =
        handle_all-recovers hash to_json_string (handled l) s aof clock db e
          (handled-IsClean l taken) (handled-IsLoggable l room)
          (ap (λ s'. s'.aof) (sym (handle_frames-handled l s)) ∙ e') in
      subst (Reruns hash to_json_string clock stats (logged_forms (map appended (handled l))) db)
        (sym same)
        (replay_log-Reruns hash to_json_string clock stats (map appended (handled l)) 0 db)
