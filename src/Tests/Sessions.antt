-- ===== src/Tests/Sessions.antt =====
-- The theorems on the shell, the benchmark and the monitor, at short lines, shares and replies.
use rustkv_lab.Prelude.{ℕ, ◌+◌, ◌≡◌, refl, inr, some, [], ◌∷◌, ◌++◌, arith, bytes_eq, ok, err}
use rustkv_lab.Text.{codes}
use rustkv_lab.Text.Chars.{is_whitespace, into_bytes}
use rustkv_lab.Text.Decimal.{to_string, parse_i64}
use rustkv_lab.Text.Utf8.{is_utf8}
use rustkv_lab.Protocol.Resp.{bulk_string, simple_string}
use rustkv_lab.Protocol.Encoder.{encode_resp}
use rustkv_lab.Protocol.Parser.{parse_resp}
use rustkv_lab.Core.Command
use rustkv_lab.Core.Command.{from_args}
use rustkv_lab.Core.Time.{returned}
use rustkv_lab.Core.Sharded
use rustkv_lab.Core.Sharded.Step
use rustkv_lab.Core.HashMap.{insert, retain}
use rustkv_lab.Core.Executor.{execute_command}
use rustkv_lab.Server.Connection.Chunks.{bytes_of}
use rustkv_lab.Clients.Response.{received, failed}
use rustkv_lab.Clients.Shell.Line.{split_command_line, single_quote, backslash}
use rustkv_lab.Clients.Shell.Line.Grammar.{Spaced, bare, escape, quotation, alone, last_word}
use rustkv_lab.Clients.Shell.Line.Split.{split_command_line-typed}
use rustkv_lab.Clients.Shell.Line.Quote.{split_command_line-unclosed}
use rustkv_lab.Clients.Shell.App
use rustkv_lab.Clients.Shell.App.{ShellApp, wrap_history_line, visible_rows}
use rustkv_lab.Clients.Shell.App.Latest.{InBounds}
use rustkv_lab.Clients.Shell.App.Visible.{Fit, visible_rows-Fit}
use rustkv_lab.Clients.Shell.Session.Answered.{at_reads}
use rustkv_lab.Clients.Shell.Session.Trimmed.{quoted_command}
use rustkv_lab.Clients.Shell.Keys.{char, enter, esc, run_loop}
use rustkv_lab.Clients.Shell.Keys.Typed.{press, presses, GoesOn, run_loop-InBounds, run_loop-typed}
use rustkv_lab.Clients.Bench
use rustkv_lab.Clients.Bench.Shares.{join_workers-total}
use rustkv_lab.Clients.Bench.Worker
use rustkv_lab.Clients.Bench.Worker.{Completed, requests_from, run_worker-Completed}
use rustkv_lab.Clients.Bench.Mixed.{mixed_reads_back}
use rustkv_lab.Clients.Monitor
use rustkv_lab.Clients.Monitor.{Metrics, SerdeJson, format_duration}
use rustkv_lab.Clients.Monitor.EventLoop
use rustkv_lab.Clients.Monitor.EventLoop.{Floats}
use rustkv_lab.Clients.Monitor.EventLoop.Consistent.{Shows, run-Shows}
use rustkv_lab.Tests.Store.{hash, clock_at, key, store, store-IsValid}
use rustkv_lab.Tests.Programs.{to_json, server, value_chunks}

-- `get  'a b'`
abbrev get_spaced : Spaced
get_spaced = record { word = (bare b'g', bare b'e' ∷ bare b't' ∷ []); gap = b' '; gaps = b' ' ∷ [] }

split_command_line-typed_example :
    split_command_line (codes "get  'a b'\\ c") ≡ ok (codes "get" ∷ codes "a b c" ∷ [])
unfolding is_whitespace
split_command_line-typed_example =
    split_command_line-typed [] (get_spaced ∷ [])
      (last_word (
        quotation single_quote (alone b'a' ∷ alone b' ' ∷ alone b'b' ∷ []),
        escape b' ' ∷ bare b'c' ∷ [],
      ))
      tt
      (
        (
          (
            (omega arith, omega arith, omega arith, refl),
            (
              (omega arith, omega arith, omega arith, refl),
              ((omega arith, omega arith, omega arith, refl), tt),
            ),
          ),
          (refl, (refl, tt)),
        ),
        tt,
      )
      (
        (
          inr refl,
          (
            (omega arith, omega arith),
            ((omega arith, omega arith), ((omega arith, omega arith), tt)),
          ),
        ),
        (tt, ((omega arith, omega arith, omega arith, refl), tt)),
      )

split_command_line-unclosed_example :
    split_command_line (codes "k'a\\") ≡ err (codes "missing closing quote '")
unfolding is_whitespace
split_command_line-unclosed_example =
    split_command_line-unclosed [] [] (bare b'k' ∷ []) single_quote (alone b'a' ∷ [])
      (backslash ∷ []) tt tt ((omega arith, omega arith, omega arith, refl), tt) (inr refl)
      ((omega arith, omega arith), tt) (inr refl)

abbrev shown : ShellApp
shown = App.push_response (codes "PONG\nabcdef") (App.new (codes "here"))

visible_rows-Fit_example : Fit 3 2 shown (visible_rows 3 2 shown)
visible_rows-Fit_example = visible_rows-Fit 3 2 shown (omega arith)

run_loop-InBounds_example :
    InBounds
      (run_loop (press (char b'?') ∷ press enter ∷ press esc ∷ []) shown (at_reads [] [] [])).1
unfolding App.push_response App.new
run_loop-InBounds_example =
    run_loop-InBounds (press (char b'?') ∷ press enter ∷ press esc ∷ []) shown (at_reads [] [] [])
      (omega arith)

-- `get "ab"`, as `"get" "ab"`
run_loop-typed_example :
    GoesOn
      (bulk_string (codes "v"))
      7
      (quoted_command (codes "get" ∷ []) key)
      (codes "get" ∷ key ∷ [])
      ([] ++ bytes_of value_chunks)
      shown
      []
      (press esc ∷ [])
      (run_loop
        (presses (quoted_command (codes "get" ∷ []) key) ++ (press enter ∷ press esc ∷ []))
        shown
        (at_reads value_chunks [] []))
unfolding App.push_response App.new parse_resp into_bytes bytes_eq is_utf8 parse_i64
run_loop-typed_example =
    run_loop-typed (codes "get" ∷ []) key (codes "get" ∷ key ∷ []) (press esc ∷ []) shown
      value_chunks [] [] (bulk_string (codes "v")) 7 refl refl refl

-- Seven requests of three clients: three, two and two.
join_workers-total_example :
    (stats : Bench.WorkerStats) × (Bench.join_workers
        (received (record { completed = 2; total_latency_nanos = 5 })
          ∷ received (record { completed = 3; total_latency_nanos = 9 })
          ∷ received (record { completed = 2; total_latency_nanos = 4 })
          ∷ [])
        Bench.no_stats
      ≡ received stats)
    × (stats.completed ≡ 7)
unfolding Bench.requests_for_client
join_workers-total_example =
    join_workers-total 7 3
      (record { completed = 2; total_latency_nanos = 5 }
        ∷ record { completed = 3; total_latency_nanos = 9 }
        ∷ record { completed = 2; total_latency_nanos = 4 }
        ∷ [])
      (omega arith) (omega arith) refl

run_worker-Completed_example :
    Completed 1
      (requests_from Bench.get 0 1 0)
      []
      (Bench.run_worker Bench.get 0 (λ n. n) 1 (Worker.at_reads value_chunks [] []))
unfolding encode_resp to_string
run_worker-Completed_example =
    run_worker-Completed Bench.get 0 (λ n. n) (bulk_string (codes "v") ∷ []) value_chunks []
      ((tt, (omega arith, refl)), tt) refl

mixed_reads_back_example :
    (write : Command.Command) × (read : Command.Command) × (from_args
        (Bench.command_args Bench.mixed 1 4)
      ≡ ok write)
    × (from_args (Bench.command_args Bench.mixed 1 (4 + 1)) ≡ ok read)
    × ((execute_command hash to_json (clock_at 300) write store server.stats).0
        ≡ returned (simple_string (codes "OK")))
    × ((execute_command hash to_json
          (clock_at 301)
          read
          (execute_command hash to_json (clock_at 300) write store server.stats).1
          server.stats).0
        ≡ returned (bulk_string (Bench.value 1 4)))
unfolding Step.set_key Sharded.new insert retain
mixed_reads_back_example =
    mixed_reads_back hash to_json (clock_at 300) (clock_at 301) 1 4 store server.stats server.stats
      refl store-IsValid (omega arith) (omega arith)

abbrev no_floats : Floats
no_floats = record { F = ℕ; zero = 0; rate = λ total nanos. total }

-- After a fetch and a failure.
abbrev fetched_once : EventLoop.EventLoop ℕ
fetched_once = record {
  addr = codes "here";
  state = record {
    addr = codes "here";
    metrics = Monitor.no_metrics;
    status = Monitor.offline;
    qps = 0;
    last_error = some (codes "read timed out");
    last_updated = some 5;
  };
  previous_total_commands = some 0;
  previous_sample_at = some 5;
}

run-Shows_example :
    Shows (some (failed (codes "read timed out"))) (some (Monitor.no_metrics, 5)) fetched_once
unfolding EventLoop.run EventLoop.new_loop
run-Shows_example =
    run-Shows no_floats (codes "here")
      ((received Monitor.no_metrics, 5) ∷ (failed (codes "read timed out"), 7) ∷ []) fetched_once
      refl
