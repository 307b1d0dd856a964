-- ===== src/Server/Client/Late.antt =====
-- A write to the log that fails behind an `append` that has answered.
use rustkv_lab.Prelude.{
  take, ◌++◌, ap, sym, ◌∙◌, ℕ, ◌<◌, ◌≡◌, refl, true, none, some, List, Bytes, length, ok, All,
}
use rustkv_lab.Protocol.Resp.{error}
use rustkv_lab.Core.Error.{KvResult}
use rustkv_lab.Core.Time.{Clock}
use rustkv_lab.Core.Command.{Command}
use rustkv_lab.Core.Sharded.{ShardedDatabase}
use rustkv_lab.Core.Stats.{ServerStatsSnapshot}
use rustkv_lab.Server.Disk.{Fault}
use rustkv_lab.Server.Aof.{AofEngine, late, append, command_to_resp_bytes, load_and_replay}
use rustkv_lab.Server.Aof.Log.{
  Appended, append_all, log_of, IsLoggable, empty_file, replay_log, torn, load_and_replay-torn,
}
use rustkv_lab.Server.Aof.Log.Contents.{append_all-contents, append_torn}
use rustkv_lab.Server.Client.{Reading, Server, reply, execute, handle_command}
use rustkv_lab.Server.Client.Logged.{is_write_command-command_to_resp_bytes}

-- The log of these commands, with a part of a frame behind it, and an error that is held or not.
abbrev pub cut_log : List Appended → Bytes → Fault → AofEngine
cut_log l frame fault = record {
  contents = log_of l ++ take fault.written frame;
  is_open = true;
  held = none;
}

module _ (hash : Bytes → ℕ) (to_json_string : ServerStatsSnapshot → KvResult Bytes) where
  late-executed :
      (now : Reading) (cmd : Command) (s : Server) (l : List Appended) (fault : Fault)
      (frame : Bytes)
      → s.aof ≡ some (append_all l empty_file)
      → now.fault ≡ some (late fault)
      → command_to_resp_bytes now.unix cmd ≡ some frame
      → handle_command hash to_json_string now cmd s
        ≡ execute hash to_json_string now.clock cmd
            (some (record (cut_log l frame fault) { held = some fault.message }))
            s
  unfolding handle_command append
  late-executed now cmd s l fault frame e f b =
      rw
        (
          is_write_command-command_to_resp_bytes now.unix cmd,
          e,
          f,
          b,
          append_all-contents l empty_file refl refl,
        )
        refl

  late-refused :
      (now : Reading) (cmd : Command) (s : Server) (l : List Appended) (fault : Fault)
      (before frame : Bytes)
      → s.aof ≡ some (record (cut_log l before fault) { held = some fault.message })
      → command_to_resp_bytes now.unix cmd ≡ some frame
      → handle_command hash to_json_string now cmd s
        ≡ (reply (error fault.message), record s { aof = some (cut_log l before fault) })
  unfolding handle_command append
  late-refused now cmd s l fault before frame e b =
      rw (is_write_command-command_to_resp_bytes now.unix cmd, e, b) refl

  -- The command is run as if its frame were in the log; the next command that is logged, whichever it
  -- is, is refused with the error and not run; and a server that loads the log as it is then runs the
  -- commands before and fails.
  abbrev pub Missed : Reading → Command → Server → List Appended → Fault → Bytes → Type 0
  Missed now cmd s l fault frame =
      (handle_command hash to_json_string now cmd s
        ≡ execute hash to_json_string now.clock cmd
            (some (record (cut_log l frame fault) { held = some fault.message })) s)
      × ((now' : Reading) (cmd' : Command) (frame' : Bytes)
          → command_to_resp_bytes now'.unix cmd' ≡ some frame'
          → handle_command hash to_json_string now' cmd'
              (handle_command hash to_json_string now cmd s).1
            ≡ (
              reply (error fault.message),
              record (handle_command hash to_json_string now cmd s).1 {
                aof = some (cut_log l frame fault);
              },
            ))
      × ((clock : ℕ → Clock) (db : ShardedDatabase)
          → load_and_replay hash clock (ok (some (cut_log l frame fault).contents)) db
            ≡ replay_log hash clock l (torn hash clock) 0 db)

  -- A server with a log of commands handles a write command, and the write of its frame to the
  -- log's file fails after a part, which tokio's `File` reports to its next write only. The command
  -- is run all the same as if its frame were in the log; the next command that is logged is refused
  -- with the error, and changes neither the store nor the counters nor the log; and a server that
  -- loads the log as it then is runs the commands before and fails, so the acknowledged command is
  -- lost. The commands are loggable, with frames below 2^59 bytes.
  pub handle_command-late :
      (now : Reading) (cmd : Command) (s : Server) (l : List Appended) (fault : Fault)
      (frame : Bytes)
      → s.aof ≡ some (append_all l empty_file)
      → now.fault ≡ some (late fault)
      → command_to_resp_bytes now.unix cmd ≡ some frame
      → All IsLoggable l
      → IsLoggable (now.unix, cmd)
      → 0 < fault.written
      → fault.written < length frame
      → Missed now cmd s l fault frame
  handle_command-late now cmd s l fault frame e f b w w' lo hi =
      let ran = late-executed now cmd s l fault frame e f b in
      (
        ran,
        λ now' cmd' frame' b'.
            late-refused now' cmd' (handle_command hash to_json_string now cmd s).1 l fault frame
              frame' (ap (λ r. r.1.aof) ran) b',
        λ clock db.
            ap (λ bytes. load_and_replay hash clock (ok (some bytes)) db)
              (sym (append_torn now.unix cmd (late fault) frame l b))
            ∙ load_and_replay-torn hash clock l now.unix cmd (late fault) frame db w w' b lo hi,
      )
