-- ===== src/Server/Client/Reruns.antt =====
-- What a server that loads a log runs, told by the executor: `replay_command` of `aof.rs` against
-- `execute_command` of `executor.rs`.
use rustkv_lab.Prelude.{ℕ, ◌≡◌, refl, ◌∙◌, ap, Option, none, some, List, [], ◌∷◌, Bytes, ok, err}
use rustkv_lab.Protocol.Resp.{RespValue, error}
use rustkv_lab.Core.Error.{KvResult, KvError}
use rustkv_lab.Core.Time.{Clock, Outcome, returned, panicked, from_secs}
use rustkv_lab.Core.Command.{Command}
use rustkv_lab.Core.Sharded.{ShardedDatabase, DbOutcome}
use rustkv_lab.Core.Stats
use rustkv_lab.Core.Stats.{ServerStats, ServerStatsSnapshot}
use rustkv_lab.Core.Executor.{
  execute_command, dispatch, after_outcome, uncounted, kv_to_string, result_to_ok_response,
  count_response, flag_response,
}
use rustkv_lab.Server.Aof.{
  Loaded, loaded, failed, crashed, after_replay, result_of, discard, replay_command,
  expire_at_ms_from_now, command_to_resp_bytes, args_of,
}
use rustkv_lab.Server.Aof.Log.{Appended, replay_log}

-- The command that stands for this one in the log: a write, its time made absolute; none for a
-- command that only reads.
abbrev pub logged_form : Option ℕ → Command → Option Command
logged_form unix (Command.set key value none) = some (Command.set key value none)
logged_form unix (Command.set key value (some duration)) =
    some (Command.set_px_at key value (expire_at_ms_from_now unix duration))
logged_form unix (Command.set_px_at key value timestamp_ms) =
    some (Command.set_px_at key value timestamp_ms)
logged_form unix (Command.del ks) = some (Command.del ks)
logged_form unix (Command.expire key seconds) =
    some (Command.expire_at key (expire_at_ms_from_now unix (from_secs seconds)))
logged_form unix (Command.expire_at key timestamp_ms) = some (Command.expire_at key timestamp_ms)
logged_form unix Command.flush_db = some Command.flush_db
logged_form unix Command.ping = none
logged_form unix (Command.get key) = none
logged_form unix (Command.exists key) = none
logged_form unix Command.keys = none
logged_form unix (Command.ttl key) = none
logged_form unix Command.info = none
logged_form unix (Command.unknown name) = none

abbrev with_form : Option Command → List Command → List Command
with_form none l = l
with_form (some cmd) l = cmd ∷ l

abbrev pub logged_forms : List Appended → List Command
logged_forms [] = []
logged_forms ((unix, cmd) ∷ l) = with_form (logged_form unix cmd) (logged_forms l)

-- The executor runs the commands one after the other from this store on, each with one of the clocks
-- and with these counters, to this end: all ran, or one panicked, or one answered an error.
pub data Reruns (hash : Bytes → ℕ) (to_json_string : ServerStatsSnapshot → KvResult Bytes)
    (clock : ℕ → Clock) (stats : ServerStats)
    : List Command → ShardedDatabase → Loaded → Type 0 where
  done : (db : ShardedDatabase) → Reruns hash to_json_string clock stats [] db (loaded db)
  ran :
      (offset : ℕ) (cmd : Command) (l : List Command) (db db' : ShardedDatabase)
      (stats' : ServerStats) (reply : RespValue) (end : Loaded)
      → execute_command hash to_json_string (clock offset) cmd db stats
        ≡ (returned reply, db', stats')
      → Reruns hash to_json_string clock stats l db' end
      → Reruns hash to_json_string clock stats (cmd ∷ l) db end
  stopped :
      (offset : ℕ) (cmd : Command) (l : List Command) (db db' : ShardedDatabase)
      (stats' : ServerStats)
      → execute_command hash to_json_string (clock offset) cmd db stats ≡ (panicked, db', stats')
      → Reruns hash to_json_string clock stats (cmd ∷ l) db (crashed db')
  refused :
      (offset : ℕ) (cmd : Command) (l : List Command) (db db' : ShardedDatabase)
      (stats' : ServerStats) (message : Bytes)
      → execute_command hash to_json_string (clock offset) cmd db stats
        ≡ (returned (error message), db', stats')
      → Reruns hash to_json_string clock stats (cmd ∷ l) db (failed message db')

module _ (hash : Bytes → ℕ) (to_json_string : ServerStatsSnapshot → KvResult Bytes)
    (clock : ℕ → Clock) (stats : ServerStats) where
  abbrev Follows : Command → List Command → ShardedDatabase → Loaded → Type 0
  Follows cmd l db end = Reruns hash to_json_string clock stats (cmd ∷ l) db end

  result-Reruns :
      {A : Type 0} (respond : KvResult A → RespValue) (r : KvResult A) (offset : ℕ) (cmd : Command)
      (l : List Command) (db db' : ShardedDatabase) (stats' : ServerStats)
      (next : ShardedDatabase → Loaded)
      → ((e : KvError) → respond (err e) ≡ error (kv_to_string e))
      → execute_command hash to_json_string (clock offset) cmd db stats
        ≡ (returned (respond r), db', stats')
      → ((d : ShardedDatabase) → Reruns hash to_json_string clock stats l d (next d))
      → Follows cmd l db (after_replay hash next (returned (discard r), db'))
  result-Reruns respond (ok a) offset cmd l db db' stats' next h e k =
      ran offset cmd l db db' stats' (respond (ok a)) (next db') e (k db')
  result-Reruns respond (err x) offset cmd l db db' stats' next h e k =
      refused offset cmd l db db' stats' (kv_to_string x)
        (e ∙ ap (λ r. (returned r, db', stats')) (h x))

  outcome-Reruns :
      {A : Type 0} (bump : ServerStats → ServerStats) (respond : KvResult A → RespValue)
      (o : Outcome (DbOutcome A) × ShardedDatabase) (stats' : ServerStats) (offset : ℕ)
      (cmd : Command) (l : List Command) (db : ShardedDatabase) (next : ShardedDatabase → Loaded)
      → ((e : KvError) → respond (err e) ≡ error (kv_to_string e))
      → execute_command hash to_json_string (clock offset) cmd db stats
        ≡ after_outcome bump respond stats' o
      → ((d : ShardedDatabase) → Reruns hash to_json_string clock stats l d (next d))
      → Follows cmd l db (after_replay hash next (result_of o))
  outcome-Reruns bump respond (panicked, db') stats' offset cmd l db next h e k =
      stopped offset cmd l db db' stats' e
  outcome-Reruns bump respond (returned o, db') stats' offset cmd l db next h e k =
      result-Reruns respond o.result offset cmd l db db' _ next h e k

  -- The write commands of the log.
  abbrev IsWrite : Command → Type 0
  IsWrite (Command.set key value expire) = Unit
  IsWrite (Command.set_px_at key value timestamp_ms) = Unit
  IsWrite (Command.del ks) = Unit
  IsWrite (Command.expire key seconds) = Unit
  IsWrite (Command.expire_at key timestamp_ms) = Unit
  IsWrite Command.flush_db = Unit
  IsWrite _ = ¬ Unit

  replay_command-Reruns :
      (cmd : Command) (offset : ℕ) (l : List Command) (db : ShardedDatabase)
      (next : ShardedDatabase → Loaded)
      → IsWrite cmd
      → ((d : ShardedDatabase) → Reruns hash to_json_string clock stats l d (next d))
      → Follows cmd l db (after_replay hash next (replay_command hash (clock offset) cmd db))
  unfolding replay_command execute_command dispatch
  replay_command-Reruns (Command.set key value expire) offset l db next w k =
      outcome-Reruns Stats.incr_set_count result_to_ok_response _ _ offset _ l db next (λ e. refl)
        refl k
  replay_command-Reruns (Command.set_px_at key value timestamp_ms) offset l db next w k =
      outcome-Reruns Stats.incr_set_count result_to_ok_response _ _ offset _ l db next (λ e. refl)
        refl k
  replay_command-Reruns (Command.del ks) offset l db next w k =
      outcome-Reruns Stats.incr_del_count count_response _ _ offset _ l db next (λ e. refl) refl k
  replay_command-Reruns (Command.expire key seconds) offset l db next w k =
      outcome-Reruns uncounted flag_response _ _ offset _ l db next (λ e. refl) refl k
  replay_command-Reruns (Command.expire_at key timestamp_ms) offset l db next w k =
      outcome-Reruns uncounted flag_response _ _ offset _ l db next (λ e. refl) refl k
  replay_command-Reruns Command.flush_db offset l db next w k =
      result-Reruns result_to_ok_response _ offset _ l db _ _ next (λ e. refl) refl k
  replay_command-Reruns Command.ping offset l db next w k = absurd (w tt)
  replay_command-Reruns (Command.get key) offset l db next w k = absurd (w tt)
  replay_command-Reruns (Command.exists key) offset l db next w k = absurd (w tt)
  replay_command-Reruns Command.keys offset l db next w k = absurd (w tt)
  replay_command-Reruns (Command.ttl key) offset l db next w k = absurd (w tt)
  replay_command-Reruns Command.info offset l db next w k = absurd (w tt)
  replay_command-Reruns (Command.unknown name) offset l db next w k = absurd (w tt)

  -- What is run of a log whose frames are read back.
  pub replay_log-Reruns :
      (l : List Appended) (offset : ℕ) (db : ShardedDatabase)
      → Reruns hash to_json_string clock stats
          (logged_forms l)
          db
          (replay_log hash clock l loaded offset db)
  unfolding command_to_resp_bytes args_of
  replay_log-Reruns [] offset db = done db
  replay_log-Reruns ((unix, Command.set key value none) ∷ l) offset db =
      replay_command-Reruns (Command.set key value none) offset (logged_forms l) db _ tt
        (λ d. replay_log-Reruns l _ d)
  replay_log-Reruns ((unix, Command.set key value (some duration)) ∷ l) offset db =
      replay_command-Reruns (Command.set_px_at key value _) offset (logged_forms l) db _ tt
        (λ d. replay_log-Reruns l _ d)
  replay_log-Reruns ((unix, Command.set_px_at key value timestamp_ms) ∷ l) offset db =
      replay_command-Reruns (Command.set_px_at key value timestamp_ms) offset (logged_forms l) db _
        tt (λ d. replay_log-Reruns l _ d)
  replay_log-Reruns ((unix, Command.del ks) ∷ l) offset db =
      replay_command-Reruns (Command.del ks) offset (logged_forms l) db _ tt
        (λ d. replay_log-Reruns l _ d)
  replay_log-Reruns ((unix, Command.expire key seconds) ∷ l) offset db =
      replay_command-Reruns (Command.expire_at key _) offset (logged_forms l) db _ tt
        (λ d. replay_log-Reruns l _ d)
  replay_log-Reruns ((unix, Command.expire_at key timestamp_ms) ∷ l) offset db =
      replay_command-Reruns (Command.expire_at key timestamp_ms) offset (logged_forms l) db _ tt
        (λ d. replay_log-Reruns l _ d)
  replay_log-Reruns ((unix, Command.flush_db) ∷ l) offset db =
      replay_command-Reruns Command.flush_db offset (logged_forms l) db _ tt
        (λ d. replay_log-Reruns l _ d)
  replay_log-Reruns ((unix, Command.ping) ∷ l) offset db = replay_log-Reruns l offset db
  replay_log-Reruns ((unix, Command.get key) ∷ l) offset db = replay_log-Reruns l offset db
  replay_log-Reruns ((unix, Command.exists key) ∷ l) offset db = replay_log-Reruns l offset db
  replay_log-Reruns ((unix, Command.keys) ∷ l) offset db = replay_log-Reruns l offset db
  replay_log-Reruns ((unix, Command.ttl key) ∷ l) offset db = replay_log-Reruns l offset db
  replay_log-Reruns ((unix, Command.info) ∷ l) offset db = replay_log-Reruns l offset db
  replay_log-Reruns ((unix, Command.unknown name) ∷ l) offset db = replay_log-Reruns l offset db
