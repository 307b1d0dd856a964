-- ===== src/Server/Aof/Replay.antt =====
-- Loading a log that the server wrote runs the logged commands again, and loading ends on any file.
use rustkv_lab.Prelude.{
  ℕ, zero, suc, ◌+◌, ◌<◌, ◌≡◌, ◌≢◌, refl, Option, none, some, [], ◌∷◌, arith, Bytes, length,
  length-drop, drop, Result, ok, err,
}
use rustkv_lab.Protocol.Resp.{RespFrame}
use rustkv_lab.Protocol.Parser
use rustkv_lab.Protocol.Parser.{Parse, parse_resp}
use rustkv_lab.Protocol.Parser.Decides.{parse_resp-returns, parse_resp-front}
use rustkv_lab.Core.Error.{KvResult}
use rustkv_lab.Core.Time.{Clock, returned, panicked}
use rustkv_lab.Core.Sharded.{ShardedDatabase}
use rustkv_lab.Core.Command.{Command, from_resp}
use rustkv_lab.Server.Aof.{
  Loaded, out_of_fuel, Replayed, after_replay, after_decode, after_parse, replay_command, load_loop,
  load_and_replay,
}

module _ (hash : Bytes → ℕ) (clock : ℕ → Clock) where
  after_replay-ends :
      (next : ShardedDatabase → Loaded) (r : Replayed)
      → ((db : ShardedDatabase) → next db ≢ out_of_fuel)
      → after_replay hash next r ≢ out_of_fuel
  after_replay-ends next (panicked, db) h = λ e. ground (arith, e)
  after_replay-ends next (returned (err m), db) h = λ e. ground (arith, e)
  after_replay-ends next (returned (ok u), db) h = h db

  after_decode-ends :
      (next : Command → Loaded) (db : ShardedDatabase) (r : KvResult Command)
      → ((cmd : Command) → next cmd ≢ out_of_fuel)
      → after_decode hash next db r ≢ out_of_fuel
  after_decode-ends next db (ok cmd) h = h cmd
  after_decode-ends next db (err e) h = λ e. ground (arith, e)

  after_parse-ends :
      (next : RespFrame × ℕ → Loaded) (db : ShardedDatabase) (r : Parse (RespFrame × ℕ))
      → r ≢ Parser.out_of_fuel
      → ((v : RespFrame) (n : ℕ) → r ≡ Parser.ok (v, n) → next (v, n) ≢ out_of_fuel)
      → after_parse hash next db r ≢ out_of_fuel
  after_parse-ends next db (Parser.ok (v, n)) h k = k v n refl
  after_parse-ends next db (Parser.err e) h k = λ e. ground (arith, e)
  after_parse-ends next db Parser.panicked h k = λ e. ground (arith, e)
  after_parse-ends next db Parser.out_of_fuel h k = absurd (h refl)

  load_loop-ends :
      (fuel : ℕ) (rest : Bytes) (offset : ℕ) (db : ShardedDatabase)
      → length rest < fuel
      → load_loop hash fuel clock rest offset db ≢ out_of_fuel
  unfolding load_loop
  load_loop-ends zero rest offset db h = elim h [ ]
  load_loop-ends (suc fuel) [] offset db h = λ e. ground (arith, e)
  load_loop-ends (suc fuel) (b ∷ rest) offset db h =
      after_parse-ends _ db (parse_resp (b ∷ rest)) (parse_resp-returns (b ∷ rest)) (λ v n e.
        after_decode-ends _ db (from_resp v) (λ cmd.
          after_replay-ends _ (replay_command hash (clock offset) cmd db) (λ db'.
            load_loop-ends fuel (drop n (b ∷ rest)) (offset + n) db'
              (omega (arith, (parse_resp-front (b ∷ rest) v n e).0, length-drop n (b ∷ rest))))))

  -- Loading ends on any file, whatever its bytes: the loop does not run for ever.
  pub load_and_replay-ends :
      (file : Result Bytes (Option Bytes)) (db : ShardedDatabase)
      → load_and_replay hash clock file db ≢ out_of_fuel
  unfolding load_and_replay
  load_and_replay-ends (err m) db = λ e. ground (arith, e)
  load_and_replay-ends (ok none) db = λ e. ground (arith, e)
  load_and_replay-ends (ok (some bytes)) db =
      load_loop-ends (suc (length bytes)) bytes 0 db (omega arith)
