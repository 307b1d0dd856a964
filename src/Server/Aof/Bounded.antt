-- ===== src/Server/Aof/Bounded.antt =====
-- What loading a log leaves: a valid store, with no more entries than the log has bytes.
use rustkv_lab.Prelude.{
  ℕ, zero, suc, ◌+◌, ◌≤◌, ◌<◌, ◌≡◌, refl, Option, none, some, [], ◌∷◌, arith, Bytes, length,
  length-drop, drop, Result, ok, err,
}
use rustkv_lab.Protocol.Resp.{RespFrame}
use rustkv_lab.Protocol.Parser
use rustkv_lab.Protocol.Parser.{Parse, parse_resp}
use rustkv_lab.Protocol.Parser.Decides.{parse_resp-front}
use rustkv_lab.Core.Error.{KvResult}
use rustkv_lab.Core.Time.{Clock, Outcome, returned, panicked}
use rustkv_lab.Core.Sharded.{ShardedDatabase, DbOutcome, usize_limit}
use rustkv_lab.Core.Sharded
use rustkv_lab.Core.Sharded.Step
use rustkv_lab.Core.Sharded.Valid.{IsValid, total}
use rustkv_lab.Core.Sharded.Keeps.{
  set-IsValid, set_at_ms-IsValid, expire-IsValid, expire_at_ms-IsValid,
}
use rustkv_lab.Core.Sharded.Sweep.{new-IsValid, total-empty, flushdb-IsValid}
use rustkv_lab.Core.Sharded.Grows.{
  Held, total-set_key, total-set_at_ms, total-expire, total-expire_at_ms, total-flushdb, del-Held,
}
use rustkv_lab.Core.Command.{Command, from_resp}
use rustkv_lab.Server.Aof.{
  Loaded, loaded, failed, crashed, out_of_fuel, Replayed, result_of, after_replay, after_decode,
  after_parse, bytes_of_file, replay_command, load_loop, load_and_replay,
}

result_of-Held :
    (hash : Bytes → ℕ) (n : ℕ) {A : Type 0} (r : Outcome (DbOutcome A) × ShardedDatabase)
    → Held hash n r
    → Held hash n (result_of r)
result_of-Held hash n (panicked, db) h = record {
  few = h.few;
  valid = λ x e. absurd (ground (arith, e));
}
result_of-Held hash n (returned o, db) h = record { few = h.few; valid = λ x e. h.valid o refl }

module _ (hash : Bytes → ℕ) (c : Clock) (db : ShardedDatabase) (v : IsValid hash db)
    (fits : total db.shards + 1 < usize_limit) where
  unchanged : {X : Type 0} (o : Outcome X) → Held hash (total db.shards + 1) (o, db)
  unchanged o = record { few = omega arith; valid = λ x e. v }

  replay_command-Held :
      (cmd : Command) → Held hash (total db.shards + 1) (replay_command hash c cmd db)
  unfolding replay_command
  replay_command-Held (Command.set key value expire) =
      result_of-Held hash _ (Step.set_key hash c key value expire db) (record {
        few = total-set_key hash c key db v value expire;
        valid = set-IsValid hash db v fits c key value expire;
      })
  replay_command-Held (Command.set_px_at key value ts) =
      result_of-Held hash _ (Step.set_at_ms hash c key value ts db) (record {
        few = total-set_at_ms hash c key db v value ts;
        valid = set_at_ms-IsValid hash db v fits c key value ts;
      })
  replay_command-Held (Command.del ks) =
      result_of-Held hash _ (Step.del hash c ks db) (del-Held hash c ks db v fits)
  replay_command-Held (Command.expire key seconds) =
      result_of-Held hash _ (Step.expire hash c key seconds db) (record {
        few = total-expire hash c key db v seconds;
        valid = expire-IsValid hash db v fits c key seconds;
      })
  replay_command-Held (Command.expire_at key ts) =
      result_of-Held hash _ (Step.expire_at_ms hash c key ts db) (record {
        few = total-expire_at_ms hash c key db v ts;
        valid = expire_at_ms-IsValid hash db v fits c key ts;
      })
  replay_command-Held Command.flush_db = record {
    few = omega (arith, total-flushdb db);
    valid = λ x e. flushdb-IsValid hash db v;
  }
  replay_command-Held Command.ping = unchanged _
  replay_command-Held (Command.get key) = unchanged _
  replay_command-Held (Command.exists key) = unchanged _
  replay_command-Held Command.keys = unchanged _
  replay_command-Held (Command.ttl key) = unchanged _
  replay_command-Held Command.info = unchanged _
  replay_command-Held (Command.unknown name) = unchanged _

-- A valid store of at most `n` entries.
pub record IsBounded (hash : Bytes → ℕ) (n : ℕ) (db : ShardedDatabase) : Type 0 where
  pub valid : IsValid hash db
  pub few : total db.shards ≤ n

pub new-IsBounded : (hash : Bytes → ℕ) (n : ℕ) → IsBounded hash 0 (Sharded.new n)
unfolding Sharded.new
new-IsBounded hash n = record { valid = new-IsValid hash n; few = omega (arith, total-empty _) }

-- Loading that succeeds leaves at most `n` entries.
abbrev pub LoadsAtMost : (Bytes → ℕ) → ℕ → Loaded → Type 0
LoadsAtMost hash n (loaded db) = IsBounded hash n db
LoadsAtMost hash n (failed message db) = Unit
LoadsAtMost hash n (crashed db) = Unit
LoadsAtMost hash n out_of_fuel = Unit

module _ (hash : Bytes → ℕ) (clock : ℕ → Clock) where
  after_replay-LoadsAtMost :
      (m n : ℕ) (next : ShardedDatabase → Loaded) (r : Replayed)
      → Held hash m r
      → ((db : ShardedDatabase) → IsBounded hash m db → LoadsAtMost hash n (next db))
      → LoadsAtMost hash n (after_replay hash next r)
  after_replay-LoadsAtMost m n next (panicked, db) h k = tt
  after_replay-LoadsAtMost m n next (returned (err message), db) h k = tt
  after_replay-LoadsAtMost m n next (returned (ok u), db) h k =
      k db (record { valid = h.valid (ok u) refl; few = h.few })

  after_decode-LoadsAtMost :
      (n : ℕ) (next : Command → Loaded) (db : ShardedDatabase) (r : KvResult Command)
      → ((cmd : Command) → LoadsAtMost hash n (next cmd))
      → LoadsAtMost hash n (after_decode hash next db r)
  after_decode-LoadsAtMost n next db (ok cmd) k = k cmd
  after_decode-LoadsAtMost n next db (err e) k = tt

  after_parse-LoadsAtMost :
      (m : ℕ) (next : RespFrame × ℕ → Loaded) (db : ShardedDatabase) (r : Parse (RespFrame × ℕ))
      → ((v : RespFrame) (n : ℕ) → r ≡ Parser.ok (v, n) → LoadsAtMost hash m (next (v, n)))
      → LoadsAtMost hash m (after_parse hash next db r)
  after_parse-LoadsAtMost m next db (Parser.ok (v, n)) k = k v n refl
  after_parse-LoadsAtMost m next db (Parser.err e) k = tt
  after_parse-LoadsAtMost m next db Parser.panicked k = tt
  after_parse-LoadsAtMost m next db Parser.out_of_fuel k = tt

  bounded_by : (n n' : ℕ) (r : Loaded) → n ≤ n' → LoadsAtMost hash n r → LoadsAtMost hash n' r
  bounded_by n n' (loaded db) le h = record { valid = h.valid; few = omega (arith, h.few) }
  bounded_by n n' (failed message db) le h = tt
  bounded_by n n' (crashed db) le h = tt
  bounded_by n n' out_of_fuel le h = tt

  load_loop-LoadsAtMost :
      (fuel : ℕ) (rest : Bytes) (offset n : ℕ) (db : ShardedDatabase)
      → IsBounded hash n db
      → n + length rest + 1 < usize_limit
      → LoadsAtMost hash (n + length rest) (load_loop hash fuel clock rest offset db)
  unfolding load_loop
  load_loop-LoadsAtMost zero rest offset n db b fits = tt
  load_loop-LoadsAtMost (suc fuel) [] offset n db b fits = record {
    valid = b.valid;
    few = omega (arith, b.few);
  }
  load_loop-LoadsAtMost (suc fuel) (x ∷ rest) offset n db b fits =
      after_parse-LoadsAtMost _ _ db (parse_resp (x ∷ rest)) (λ v m e.
        after_decode-LoadsAtMost _ _ db (from_resp v) (λ cmd.
          after_replay-LoadsAtMost (total db.shards + 1) _ _
            (replay_command hash (clock offset) cmd db)
            (replay_command-Held hash (clock offset) db b.valid (omega (arith, b.few)) cmd)
            (λ db' b'.
              let front = (parse_resp-front (x ∷ rest) v m e).0 in
              let left = length-drop m (x ∷ rest) in
              bounded_by _ _ _ (omega (arith, front, left)) (
                load_loop-LoadsAtMost fuel (drop m (x ∷ rest)) (offset + m) (n + 1) db'
                  (record { valid = b'.valid; few = omega (arith, b.few, b'.few) })
                  (omega (arith, front, left))))))

  pub load_and_replay-LoadsAtMost :
      (file : Result Bytes (Option Bytes)) (db : ShardedDatabase)
      → IsBounded hash 0 db
      → length (bytes_of_file file) + 1 < usize_limit
      → LoadsAtMost hash (length (bytes_of_file file)) (load_and_replay hash clock file db)
  unfolding load_and_replay
  load_and_replay-LoadsAtMost (err message) db b fits = tt
  load_and_replay-LoadsAtMost (ok none) db b fits = b
  load_and_replay-LoadsAtMost (ok (some bytes)) db b fits =
      bounded_by (0 + length bytes) (length bytes)
        (load_loop hash (suc (length bytes)) clock bytes 0 db) (omega arith)
        (load_loop-LoadsAtMost (suc (length bytes)) bytes 0 0 db b (omega arith))
