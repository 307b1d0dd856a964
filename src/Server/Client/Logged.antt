-- ===== src/Server/Client/Logged.antt =====
-- What is logged, what is run, and what the counters show after a frame.
use rustkv_lab.Prelude.{
  Bool-cases, inl, inr, sym, ◌∙◌, ap, ℕ, ◌+◌, ◌<◌, ◌≡◌, refl, false, Option, none, some, Bytes,
  Result, ok, err, arith,
}
use rustkv_lab.Protocol.Resp.{RespValue}
use rustkv_lab.Core.Error.{KvResult}
use rustkv_lab.Core.Time.{Clock, Outcome, returned, panicked}
use rustkv_lab.Core.Command.{Command}
use rustkv_lab.Core.Database.{is_some}
use rustkv_lab.Core.Sharded.{usize_limit}
use rustkv_lab.Core.Sharded.Valid.{total}
use rustkv_lab.Core.Stats.{ServerStatsSnapshot}
use rustkv_lab.Core.Executor.{execute_command}
use rustkv_lab.Core.Executor.InSync.{InSync, named_keys, execute_command-InSync}
use rustkv_lab.Server.Aof.{
  AofEngine, WriteFault, append, append_bytes, command_to_resp_bytes, args_of,
}
use rustkv_lab.Server.Client.{
  is_write_command, Reading, Server, reply, reaction, logged, after_append, execute, handle_command,
}

-- The server logs exactly the commands that have a frame in the log.
pub is_write_command-command_to_resp_bytes :
    (unix : Option ℕ) (cmd : Command)
    → is_write_command cmd ≡ is_some (command_to_resp_bytes unix cmd)
unfolding is_write_command command_to_resp_bytes args_of
is_write_command-command_to_resp_bytes unix Command.ping = refl
is_write_command-command_to_resp_bytes unix (Command.set _ _ none) = refl
is_write_command-command_to_resp_bytes unix (Command.set _ _ (some d)) = refl
is_write_command-command_to_resp_bytes unix (Command.set_px_at _ _ _) = refl
is_write_command-command_to_resp_bytes unix (Command.get _) = refl
is_write_command-command_to_resp_bytes unix (Command.del _) = refl
is_write_command-command_to_resp_bytes unix (Command.exists _) = refl
is_write_command-command_to_resp_bytes unix Command.keys = refl
is_write_command-command_to_resp_bytes unix (Command.expire _ _) = refl
is_write_command-command_to_resp_bytes unix (Command.expire_at _ _) = refl
is_write_command-command_to_resp_bytes unix (Command.ttl _) = refl
is_write_command-command_to_resp_bytes unix Command.flush_db = refl
is_write_command-command_to_resp_bytes unix Command.info = refl
is_write_command-command_to_resp_bytes unix (Command.unknown _) = refl

unlogged :
    (fault : Option WriteFault) (o : Option Bytes) (aof : AofEngine)
    → is_some o ≡ false
    → (append_bytes fault o aof).1 ≡ aof
unlogged fault none aof h = refl
unlogged fault (some frame) aof h = absurd (ground (arith, h))

reaction-reply :
    (o : Outcome RespValue) (value : RespValue) → reaction o ≡ reply value → o ≡ returned value
reaction-reply (returned v) value e = ground (arith, e)
reaction-reply panicked value e = absurd (ground (arith, e))

module _ (hash : Bytes → ℕ) (to_json_string : ServerStatsSnapshot → KvResult Bytes) where
  after_append-aof :
      (c : Clock) (cmd : Command) (r : Result Bytes (Unit {0}) × AofEngine) (s : Server)
      → (after_append hash to_json_string c cmd r s).1.aof ≡ some r.1
  after_append-aof c cmd (ok u, aof) s = refl
  after_append-aof c cmd (err message, aof) s = refl

  -- Whatever a command does to the store, and also where it panics, the log is what `append` makes
  -- of it: nothing is added for a command that only reads.
  pub handle_command-aof :
      (now : Reading) (cmd : Command) (s : Server) (aof : AofEngine)
      → s.aof ≡ some aof
      → (handle_command hash to_json_string now cmd s).1.aof
        ≡ some (append now.unix now.fault cmd aof).1
  unfolding handle_command append
  handle_command-aof now cmd s aof e = elim (Bool-cases (is_write_command cmd)) [
    | inl w ↦ rw (w, e) (after_append-aof now.clock cmd _ (record s { aof = some aof }))
    | inr w ↦ rw w (
        e
        ∙ ap some (
            sym (
              unlogged now.fault (command_to_resp_bytes now.unix cmd) aof
                (sym (is_write_command-command_to_resp_bytes now.unix cmd) ∙ w))))
  ]

  execute-InSync :
      (c : Clock) (cmd : Command) (aof : Option AofEngine) (s : Server) (value : RespValue)
      → InSync hash s.db s.stats
      → total s.db.shards + named_keys cmd < usize_limit
      → (execute hash to_json_string c cmd aof s).0 ≡ reply value
      → InSync hash
          (execute hash to_json_string c cmd aof s).1.db
          (execute hash to_json_string c cmd aof s).1.stats
  execute-InSync c cmd aof s value sync fits e =
      execute_command-InSync hash to_json_string c s.db sync.valid cmd s.stats sync.shown fits value
        (reaction-reply (execute_command hash to_json_string c cmd s.db s.stats).0 value e)

  after_append-InSync :
      (c : Clock) (cmd : Command) (r : Result Bytes (Unit {0}) × AofEngine) (s : Server)
      (value : RespValue)
      → InSync hash s.db s.stats
      → total s.db.shards + named_keys cmd < usize_limit
      → (after_append hash to_json_string c cmd r s).0 ≡ reply value
      → InSync hash
          (after_append hash to_json_string c cmd r s).1.db
          (after_append hash to_json_string c cmd r s).1.stats
  after_append-InSync c cmd (ok u, aof) s value sync fits e =
      execute-InSync c cmd (some aof) s value sync fits e
  after_append-InSync c cmd (err message, aof) s value sync fits e = sync

  logged-InSync :
      (now : Reading) (cmd : Command) (aof : Option AofEngine) (s : Server) (value : RespValue)
      → InSync hash s.db s.stats
      → total s.db.shards + named_keys cmd < usize_limit
      → (logged hash to_json_string now cmd aof s).0 ≡ reply value
      → InSync hash
          (logged hash to_json_string now cmd aof s).1.db
          (logged hash to_json_string now cmd aof s).1.stats
  logged-InSync now cmd none s value sync fits e =
      execute-InSync now.clock cmd none s value sync fits e
  logged-InSync now cmd (some aof) s value sync fits e =
      after_append-InSync now.clock cmd _ s value sync fits e

  -- A command that is answered leaves a valid store, and counters that show its key count, where
  -- both held before and the store has room for the keys that the command names.
  pub handle_command-InSync :
      (now : Reading) (cmd : Command) (s : Server) (value : RespValue)
      → InSync hash s.db s.stats
      → total s.db.shards + named_keys cmd < usize_limit
      → (handle_command hash to_json_string now cmd s).0 ≡ reply value
      → InSync hash
          (handle_command hash to_json_string now cmd s).1.db
          (handle_command hash to_json_string now cmd s).1.stats
  unfolding handle_command
  handle_command-InSync now cmd s value sync fits e = elim (Bool-cases (is_write_command cmd)) [
    | inl w ↦ rw w (logged-InSync now cmd s.aof s value sync fits (rw w at e))
    | inr w ↦ rw w (execute-InSync now.clock cmd s.aof s value sync fits (rw w at e))
  ]
