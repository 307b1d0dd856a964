-- ===== src/Clients/Bench/Mixed.antt =====
-- In the mixed benchmark each GET reads what the SET before it wrote.
use rustkv_lab.Prelude.{
  ℕ, ◌+◌, ◌-◌, ◌%◌, ◌≤◌, ◌<◌, ◌≡◌, refl, true, false, none, ◌++◌, Bytes, ok, arith, All-append,
  ◌==◌,
}
use rustkv_lab.Text.{codes}
use rustkv_lab.Text.Utf8.{is_utf8, is_utf8_of_ascii, IsAscii}
use rustkv_lab.Text.Decimal.{to_string}
use rustkv_lab.Text.Decimal.RoundTrip.{to_string-IsAscii}
use rustkv_lab.Protocol.Resp.{simple_string, bulk_string}
use rustkv_lab.Core.Error.{KvResult}
use rustkv_lab.Core.Time.{Clock, returned}
use rustkv_lab.Core.Entry
use rustkv_lab.Core.Sharded.{ShardedDatabase, usize_limit}
use rustkv_lab.Core.Sharded.Valid.{IsValid, total}
use rustkv_lab.Core.Command
use rustkv_lab.Core.Command.{from_args}
use rustkv_lab.Core.Stats.{ServerStats, ServerStatsSnapshot}
use rustkv_lab.Core.Executor.{execute_command}
use rustkv_lab.Core.Executor.Exchange.{execute_command-set-get}
use rustkv_lab.Server.Aof.Frames.{set-args}
use rustkv_lab.Clients.Cli.Requests.{get-args}
use rustkv_lab.Clients.Bench
use rustkv_lab.Clients.Bench.{mixed, command_args, key, value}

-- The key that the requests `sequence` and `sequence + 1` of a client share, for an even sequence.
abbrev pub mixed_key : ℕ → ℕ → Bytes
mixed_key client_id sequence = key "bench:mixed" client_id sequence

append-IsAscii : (s t : Bytes) → IsAscii s → IsAscii t → IsAscii (s ++ t)
append-IsAscii s t = All-append (λ c. c < 0x80) s t

mixed_key-IsAscii : (client_id sequence : ℕ) → IsAscii (mixed_key client_id sequence)
unfolding key
mixed_key-IsAscii client_id sequence =
    let first = codes "bench:mixed" ++ codes ":" in
    let with_id =
      append-IsAscii first (to_string client_id) (omega arith) (to_string-IsAscii client_id) in
    let with_colon =
      append-IsAscii (first ++ to_string client_id) (codes ":") with_id (omega arith) in
    append-IsAscii (first ++ to_string client_id ++ codes ":") (to_string sequence) with_colon
      (to_string-IsAscii sequence)

mixed_key-utf8 : (client_id sequence : ℕ) → is_utf8 (mixed_key client_id sequence) ≡ true
mixed_key-utf8 client_id sequence =
    is_utf8_of_ascii (mixed_key client_id sequence) (mixed_key-IsAscii client_id sequence)

command_args-even :
    (client_id sequence : ℕ)
    → sequence % 2 ≡ 0
    → from_args (command_args mixed client_id sequence)
      ≡ ok (Command.set (mixed_key client_id sequence) (value client_id sequence) none)
unfolding command_args Bench.set_args
command_args-even client_id sequence even =
    let test : (sequence % 2 == 0) ≡ true = ground arith in
    rw test (
      set-args (mixed_key client_id sequence) (value client_id sequence)
        (mixed_key-utf8 client_id sequence))

command_args-odd :
    (client_id sequence : ℕ)
    → sequence % 2 ≡ 0
    → from_args (command_args mixed client_id (sequence + 1))
      ≡ ok (Command.get (mixed_key client_id sequence))
unfolding command_args Bench.get_args
command_args-odd client_id sequence even =
    let test : ((sequence + 1) % 2 == 0) ≡ false = ground arith in
    let before : sequence + 1 - 1 ≡ sequence = omega arith in
    rw (test, before) (get-args (mixed_key client_id sequence) (mixed_key-utf8 client_id sequence))

module _ (hash : Bytes → ℕ) (to_json_string : ServerStatsSnapshot → KvResult Bytes) where
  -- Of the requests of the mixed benchmark, those with an even number and the next are read as SET
  -- and GET, and run in turn on a valid store with room for a key, at clocks that do not go back,
  -- they are answered with OK and with the value that the first wrote.
  pub mixed_reads_back :
      (c c' : Clock) (client_id sequence : ℕ) (db : ShardedDatabase) (stats stats' : ServerStats)
      → sequence % 2 ≡ 0
      → IsValid hash db
      → total db.shards + 1 < usize_limit
      → c.scan (mixed_key client_id sequence) ≤ c'.scan (mixed_key client_id sequence)
      → (write : Command.Command) × (read : Command.Command) × (from_args
            (command_args mixed client_id sequence)
          ≡ ok write)
        × (from_args (command_args mixed client_id (sequence + 1)) ≡ ok read)
        × ((execute_command hash to_json_string c write db stats).0
            ≡ returned (simple_string (codes "OK")))
        × ((execute_command hash to_json_string c' read
              (execute_command hash to_json_string c write db stats).1
              stats').0
            ≡ returned (bulk_string (value client_id sequence)))
  unfolding Entry.new Entry.is_expired
  mixed_reads_back c c' client_id sequence db stats stats' even v fits le =
      let k = mixed_key client_id sequence in
      let (stored, got) =
        execute_command-set-get hash to_json_string c c' k (value client_id sequence) none
          (record { value = value client_id sequence; expire_at = none }) db stats stats' v fits
          refl le in
      (
        Command.set k (value client_id sequence) none,
        Command.get k,
        command_args-even client_id sequence even,
        command_args-odd client_id sequence even,
        stored,
        got,
      )
