-- ===== src/Server/Client/Recovery.antt =====
-- A server that starts again on the log of another runs that one's write commands again.
use rustkv_lab.Prelude.{
  some_injective, ℕ, ◌≡◌, sym, ◌∙◌, ap, none, some, List, [], ◌∷◌, map, Bytes, ok, All,
}
use rustkv_lab.Core.Error.{KvResult}
use rustkv_lab.Core.Time.{Clock}
use rustkv_lab.Core.Command.{Command}
use rustkv_lab.Core.Sharded.{ShardedDatabase}
use rustkv_lab.Core.Stats.{ServerStatsSnapshot}
use rustkv_lab.Server.Aof.{AofEngine, append, loaded, load_and_replay}
use rustkv_lab.Server.Aof.Log.{
  Appended, append_all, IsLoggable, empty_file, replay_log, load_and_replay-append,
}
use rustkv_lab.Server.Client.{Reading, Server, handle_command}
use rustkv_lab.Server.Client.Logged.{handle_command-aof}

-- The commands in the order in which the server handles them, of whichever clients.
abbrev pub Handled : Type 0
Handled = Reading × Command

abbrev pub appended : Handled → Appended
appended (now, cmd) = (now.unix, cmd)

abbrev pub IsClean : Handled → Type 0
IsClean (now, cmd) = now.fault ≡ none

module _ (hash : Bytes → ℕ) (to_json_string : ServerStatsSnapshot → KvResult Bytes) where
  abbrev pub handle_all : List Handled → Server → Server
  handle_all [] s = s
  handle_all ((now, cmd) ∷ l) s = handle_all l (handle_command hash to_json_string now cmd s).1

  handle_all-aof :
      (l : List Handled) (s : Server) (aof : AofEngine)
      → s.aof ≡ some aof
      → All IsClean l
      → (handle_all l s).aof ≡ some (append_all (map appended l) aof)
  handle_all-aof [] s aof e clean = e
  handle_all-aof ((now, cmd) ∷ l) s aof e clean =
      handle_all-aof l (handle_command hash to_json_string now cmd s).1
        (append now.unix none cmd aof).1
        (handle_command-aof hash to_json_string now cmd s aof e
          ∙ ap (λ fault. some (append now.unix fault cmd aof).1) clean.0)
        clean.1

  -- A server with an empty log handles commands, whose keys are UTF-8, whose times are of 64 bits
  -- and whose frames are below 2^59 bytes, and the disk takes every write. A server that then loads
  -- the log runs the write commands among them in the same order, with their times made absolute.
  pub handle_all-recovers :
      (l : List Handled) (s : Server) (aof : AofEngine) (clock : ℕ → Clock) (db : ShardedDatabase)
      → s.aof ≡ some empty_file
      → All IsClean l
      → All IsLoggable (map appended l)
      → (handle_all l s).aof ≡ some aof
      → load_and_replay hash clock (ok (some aof.contents)) db
        ≡ replay_log hash clock (map appended l) loaded 0 db
  handle_all-recovers l s aof clock db e clean proper e' =
      let same : aof ≡ append_all (map appended l) empty_file =
        some_injective (sym e' ∙ handle_all-aof l s empty_file e clean) in
      ap (λ a. load_and_replay hash clock (ok (some a.contents)) db) same
      ∙ load_and_replay-append hash clock (map appended l) db proper
