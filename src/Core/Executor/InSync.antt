-- ===== src/Core/Executor/InSync.antt =====
-- A command that returns leaves a valid store, and counters that show the store's key count.
use rustkv_lab.Prelude.{
  ℕ, ◌+◌, ◌<◌, ◌≡◌, refl, sym, ◌∙◌, List, [], ◌∷◌, arith, Bytes, length, get_or, inl, inr,
}
use rustkv_lab.Core.Error.{KvResult}
use rustkv_lab.Core.Time.{Clock, Outcome, returned, panicked, Outcome-cases}
use rustkv_lab.Core.Database
use rustkv_lab.Core.Sharded.{ShardedDatabase, DbOutcome, usize_limit}
use rustkv_lab.Core.Sharded.Step
use rustkv_lab.Core.Sharded.Step.{run_key, run_swept, run_shard, swept}
use rustkv_lab.Core.Sharded.Valid.{IsValid, total}
use rustkv_lab.Core.Sharded.Keeps.{
  set-IsValid, set_at_ms-IsValid, get-IsValid, exists-IsValid, expire-IsValid, expire_at_ms-IsValid,
  ttl-IsValid, del-IsValid,
}
use rustkv_lab.Core.Sharded.Sweep.{info_snapshot-IsValid, flushdb-IsValid, flushdb_lem}
use rustkv_lab.Core.Command.{Command}
use rustkv_lab.Core.Stats
use rustkv_lab.Core.Stats.{ServerStats, ServerStatsSnapshot}
use rustkv_lab.Core.Executor.{
  uncounted, result_to_ok_response, value_response, count_response, flag_response, ttl_response,
  after_outcome, execute_command, dispatch, counted,
}
use rustkv_lab.Protocol.Resp.{RespValue}

pub record InSync (hash : Bytes → ℕ) (db : ShardedDatabase) (stats : ServerStats) : Type 0 where
  pub valid : IsValid hash db
  pub shown : stats.key_count ≡ db.key_count

-- The keys that a command names, each of which may be new.
abbrev pub named_keys : Command → ℕ
named_keys (Command.del ks) = length ks
named_keys _ = 1

module _ (hash : Bytes → ℕ) where
  -- An outcome reports the key count that the operation left.
  abbrev Reports : {A : Type 0} → Outcome (DbOutcome A) × ShardedDatabase → Type 0
  Reports {A} r = (o : DbOutcome A) → r.0 ≡ returned o → o.key_count ≡ r.1.key_count

  run_key-Reports :
      {A : Type 0} (key : Bytes) (method : Database.Method A) (s : ShardedDatabase)
      → Reports (run_key hash key method s)
  unfolding run_key
  run_key-Reports key method s o e =
      elim (Outcome-cases (method (get_or s.shards (Step.shard_for_key hash s key) [])).0) [
        | inl p ↦ absurd (ground (arith, p))
        | inr (a, p) ↦ ground (arith, p)
      ]

  run_swept-Reports :
      (c : Clock) (key : Bytes) (method : Database.Method (Unit {0})) (s : ShardedDatabase)
      → Reports (run_swept hash c key method s)
  unfolding run_swept
  run_swept-Reports c key method s o e =
      elim (Outcome-cases (run_shard hash key (swept c method) s).0) [
        | inl p ↦ absurd (ground (arith, p))
        | inr (b, p) ↦ ground (arith, p)
      ]

  del_loop-Reports :
      (c : Clock) (ks : List Bytes) (removed expired : ℕ) (s : ShardedDatabase)
      → Reports (Step.del_loop hash c ks removed expired s)
  unfolding Step.del_loop
  del_loop-Reports c [] removed expired s o e = ground (arith, e)
  del_loop-Reports c (key ∷ ks) removed expired s o e = del_loop-Reports c ks _ _ _ o e

  after_outcome-InSync :
      {A : Type 0} (bump : ServerStats → ServerStats) (respond : KvResult A → RespValue)
      (stats : ServerStats) (r : Outcome (DbOutcome A) × ShardedDatabase)
      → Reports r
      → ((o : DbOutcome A) → r.0 ≡ returned o → IsValid hash r.1)
      → (reply : RespValue) → (after_outcome bump respond stats r).0 ≡ returned reply
      → InSync hash (after_outcome bump respond stats r).1 (after_outcome bump respond stats r).2
  unfolding Stats.set_key_count Stats.incr_expired_keys_by
  after_outcome-InSync bump respond stats (panicked, db) reports valid reply e =
      absurd (ground (arith, e))
  after_outcome-InSync bump respond stats (returned o, db) reports valid reply e = record {
    valid = valid o refl;
    shown = reports o refl;
  }

  module _ (to_json_string : ServerStatsSnapshot → KvResult Bytes) (c : Clock)
      (db : ShardedDatabase) (v : IsValid hash db) where
    counted-key_count :
        (cmd : Command) (stats : ServerStats)
        → (counted hash to_json_string cmd stats).key_count ≡ stats.key_count
    unfolding Stats.incr_total_commands
    counted-key_count Command.ping stats = refl
    counted-key_count (Command.set _ _ _) stats = refl
    counted-key_count (Command.set_px_at _ _ _) stats = refl
    counted-key_count (Command.get _) stats = refl
    counted-key_count (Command.del _) stats = refl
    counted-key_count (Command.exists _) stats = refl
    counted-key_count Command.keys stats = refl
    counted-key_count (Command.expire _ _) stats = refl
    counted-key_count (Command.expire_at _ _) stats = refl
    counted-key_count (Command.ttl _) stats = refl
    counted-key_count Command.flush_db stats = refl
    counted-key_count Command.info stats = refl
    counted-key_count (Command.unknown _) stats = refl

    dispatch-InSync :
        (cmd : Command) (stats : ServerStats)
        → stats.key_count ≡ db.key_count
        → total db.shards + named_keys cmd < usize_limit
        → (reply : RespValue) → (dispatch hash to_json_string c cmd db stats).0 ≡ returned reply
        → InSync hash
            (dispatch hash to_json_string c cmd db stats).1
            (dispatch hash to_json_string c cmd db stats).2
    unfolding dispatch Step.set_key Step.set_at_ms Step.get Step.del Step.exists Step.expire
        Step.expire_at_ms Step.ttl
    dispatch-InSync Command.ping stats shown fits reply e = record { valid = v; shown = shown }
    dispatch-InSync (Command.set key value expire) stats shown fits reply e =
        after_outcome-InSync Stats.incr_set_count result_to_ok_response stats
          (Step.set_key hash c key value expire db)
          (run_swept-Reports c key (Database.set c key value expire) db)
          (set-IsValid hash db v fits c key value expire) reply e
    dispatch-InSync (Command.set_px_at key value ts) stats shown fits reply e =
        after_outcome-InSync Stats.incr_set_count result_to_ok_response stats
          (Step.set_at_ms hash c key value ts db)
          (run_swept-Reports c key (Database.set_at_ms c key value ts) db)
          (set_at_ms-IsValid hash db v fits c key value ts) reply e
    dispatch-InSync (Command.get key) stats shown fits reply e =
        after_outcome-InSync Stats.incr_get_count value_response stats (Step.get hash c key db)
          (run_key-Reports key (Database.get c key) db) (get-IsValid hash db v fits c key) reply e
    dispatch-InSync (Command.del ks) stats shown fits reply e =
        after_outcome-InSync Stats.incr_del_count count_response stats (Step.del hash c ks db)
          (del_loop-Reports c ks 0 0 db) (λ o e. del-IsValid hash c ks db v fits) reply e
    dispatch-InSync (Command.exists key) stats shown fits reply e =
        after_outcome-InSync uncounted flag_response stats (Step.exists hash c key db)
          (run_key-Reports key (Database.exists c key) db) (exists-IsValid hash db v fits c key)
          reply e
    dispatch-InSync Command.keys stats shown fits reply e = record { valid = v; shown = shown }
    dispatch-InSync (Command.expire key seconds) stats shown fits reply e =
        after_outcome-InSync uncounted flag_response stats (Step.expire hash c key seconds db)
          (run_key-Reports key (Database.expire c key seconds) db)
          (expire-IsValid hash db v fits c key seconds) reply e
    dispatch-InSync (Command.expire_at key ts) stats shown fits reply e =
        after_outcome-InSync uncounted flag_response stats (Step.expire_at_ms hash c key ts db)
          (run_key-Reports key (Database.expire_at_ms c key ts) db)
          (expire_at_ms-IsValid hash db v fits c key ts) reply e
    dispatch-InSync (Command.ttl key) stats shown fits reply e =
        after_outcome-InSync uncounted ttl_response stats (Step.ttl hash c key db)
          (run_key-Reports key (Database.ttl c key) db) (ttl-IsValid hash db v fits c key) reply e
    dispatch-InSync Command.flush_db stats shown fits reply e = record {
      valid = flushdb-IsValid hash db v;
      shown = unfold Stats.set_key_count in rw flushdb_lem refl;
    }
    dispatch-InSync Command.info stats shown fits reply e =
        let (valid, exact, counts) = info_snapshot-IsValid hash c db v (omega arith) in
        record {
          valid = valid;
          shown =
              unfold Stats.set_key_count Stats.set_memory_estimate_bytes Stats.incr_expired_keys_by
                Stats.snapshot in
              (exact ∙ sym valid.counted);
        }
    dispatch-InSync (Command.unknown name) stats shown fits reply e = record {
      valid = v;
      shown = shown;
    }

    -- A command that returns, on a valid store whose key count the counters show, leaves a valid
    -- store whose key count the counters show, if the store has room for the keys that the command
    -- names.
    pub execute_command-InSync :
        (cmd : Command) (stats : ServerStats)
        → stats.key_count ≡ db.key_count
        → total db.shards + named_keys cmd < usize_limit
        → (reply : RespValue)
        → (execute_command hash to_json_string c cmd db stats).0 ≡ returned reply
        → InSync hash
            (execute_command hash to_json_string c cmd db stats).1
            (execute_command hash to_json_string c cmd db stats).2
    unfolding execute_command
    execute_command-InSync cmd stats shown =
        dispatch-InSync cmd (counted hash to_json_string cmd stats)
          (counted-key_count cmd stats ∙ shown)
