-- ===== src/Core/Executor/Exchange.antt =====
-- What a command replies after another one.
use rustkv_lab.Prelude.{
  ℕ, ◌≤◌, ◌<◌, ◌+◌, ◌≡◌, refl, ap, ◌∙◌, Option, some, Bytes, bytes_eq_refl, ok, arith,
}
use rustkv_lab.Text.{codes}
use rustkv_lab.Protocol.Resp.{RespValue, simple_string}
use rustkv_lab.Core.Error.{KvResult}
use rustkv_lab.Core.Time.{Clock, Outcome, returned, panicked}
use rustkv_lab.Core.Entry
use rustkv_lab.Core.Entry.{Entry}
use rustkv_lab.Core.Database.{value_of}
use rustkv_lab.Core.Database.View.{live}
use rustkv_lab.Core.Sharded.{ShardedDatabase, DbOutcome, usize_limit}
use rustkv_lab.Core.Sharded.Step
use rustkv_lab.Core.Sharded.Valid.{IsValid, total}
use rustkv_lab.Core.Sharded.Keeps.{set-IsValid}
use rustkv_lab.Core.Sharded.Writes.{set-puts}
use rustkv_lab.Core.Sharded.Reads.{Answers, get-reads}
use rustkv_lab.Core.Command
use rustkv_lab.Core.Stats
use rustkv_lab.Core.Stats.{ServerStats, ServerStatsSnapshot}
use rustkv_lab.Core.Executor.{
  Execution, after_outcome, execute_command, dispatch, value_response, result_to_ok_response,
}

-- The reply, and the store behind it.
after_outcome-Answers :
    {A : Type 0} (bump : ServerStats → ServerStats) (respond : KvResult A → RespValue)
    (stats : ServerStats) (r : Outcome (DbOutcome A) × ShardedDatabase) (a : A)
    → Answers r.0 a
    → ((after_outcome bump respond stats r).0 ≡ returned (respond (ok a)))
      × ((after_outcome bump respond stats r).1 ≡ r.1)
after_outcome-Answers {A} bump respond stats (returned o, db) a (d, e, f) =
    let same : o ≡ d = ground (arith, e) in
    (ap (λ x. returned (respond x)) (ap (λ (x : DbOutcome A). x.result) same ∙ f), refl)
after_outcome-Answers bump respond stats (panicked, db) a (d, e, f) = absurd (ground (arith, e))

module _ (hash : Bytes → ℕ) (to_json_string : ServerStatsSnapshot → KvResult Bytes) where
  abbrev exec : Clock → Command.Command → ShardedDatabase → ServerStats → Execution
  exec = execute_command hash to_json_string

  -- A GET behind a SET of its key answers with the value, until its deadline.
  pub execute_command-set-get :
      (c c' : Clock) (key value : Bytes) (expire : Option ℕ) (e : Entry) (db : ShardedDatabase)
      (stats stats' : ServerStats)
      → IsValid hash db
      → total db.shards + 1 < usize_limit
      → Entry.new c.instant value expire ≡ returned e
      → c.scan key ≤ c'.scan key
      → ((exec c (Command.set key value expire) db stats).0 ≡ returned (simple_string (codes "OK")))
        × ((exec c' (Command.get key) (exec c (Command.set key value expire) db stats).1 stats').0
            ≡ returned (value_response (ok (value_of (live (c'.scan key) (some e))))))
  unfolding execute_command dispatch
  execute_command-set-get c c' key value expire e db stats stats' v fits new le =
      let (answers, shows) = set-puts hash key db v c value expire e (c'.scan key) key new le in
      let r = Step.set_key hash c key value expire db in
      let stored =
        after_outcome-Answers Stats.incr_set_count result_to_ok_response
          (Stats.incr_total_commands stats) r tt answers in
      let valid = set-IsValid hash db v fits c key value expire answers.0 answers.1 in
      let (reads, same) = get-reads hash key r.1 valid c' (c'.scan key) (omega arith) in
      let got =
        after_outcome-Answers Stats.incr_get_count value_response (Stats.incr_total_commands stats')
          (Step.get hash c' key r.1) _ reads in
      (
        stored.0,
        rw stored.1 (
            got.0
            ∙ ap (λ o. returned (value_response (ok (value_of o))))
                (shows ∙ rw (bytes_eq_refl key) refl)),
      )
