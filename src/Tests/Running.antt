-- ===== src/Tests/Running.antt =====
-- The theorems on a server as a whole, on one that starts from a log with one SET.
use rustkv_lab.Prelude.{
  ◌+◌, ◌*◌, ◌≡◌, refl, true, none, some, [], ◌∷◌, arith, Bytes, length, bytes_eq, ok,
}
use rustkv_lab.Text.{codes}
use rustkv_lab.Text.Utf8.{is_utf8}
use rustkv_lab.Text.Decimal.{to_string, parse_i64}
use rustkv_lab.Core.HashMap.{insert, retain}
use rustkv_lab.Core.Sharded
use rustkv_lab.Core.Sharded.{ShardedDatabase}
use rustkv_lab.Core.Sharded.Access
use rustkv_lab.Core.Sharded.Access.Covered.{IsCovered}
use rustkv_lab.Core.Sharded.Step
use rustkv_lab.Core.Stats
use rustkv_lab.Server.Config.{ServerConfig, default_config, validate}
use rustkv_lab.Server.Client.{Server}
use rustkv_lab.Server.Startup.{Surroundings, running, start}
use rustkv_lab.Server.Startup.Configured.{IsConfigured, start-IsConfigured}
use rustkv_lab.Server.Run.{client_joined, joined, accessed, rests, goes_on}
use rustkv_lab.Server.Run.Bounded.{Runs-IsCovered}
use rustkv_lab.Clients.Response.{encode_command}
use rustkv_lab.Tests.Store.{hash, clock_at, key}

abbrev config : ServerConfig
config = record default_config { aof_path = some (codes "a"); shard_count = 2 }

abbrev log : Bytes
log = encode_command (codes "SET" ∷ key ∷ codes "v" ∷ [])

abbrev around : Surroundings
around = record {
  local_addr = ok (codes "h:1");
  file = ok (some log);
  opened = ok tt;
  clock = clock_at;
  version = codes "0.1.0";
  started_at = 200;
}

abbrev at_start : Server
at_start = record {
  db = (Step.set_key hash (clock_at 0) key (codes "v") none (Sharded.new 2)).1;
  stats = Stats.configure_runtime (codes "h:1") true (1024 * 1024) (Stats.new (codes "0.1.0") 200);
  aof = some (record { contents = log; is_open = true; held = none });
}

starts : start hash config around ≡ running at_start
unfolding start validate default_config encode_command is_utf8 Step.set_key Sharded.new insert
    retain Stats.new Stats.configure_runtime bytes_eq parse_i64
starts = refl

start-IsConfigured_example : IsConfigured hash config around at_start
unfolding encode_command to_string
start-IsConfigured_example = start-IsConfigured hash config around at_start starts (omega arith)

abbrev get_frame : Bytes
get_frame = encode_command (codes "GET" ∷ key ∷ [])

-- The store after a GET.
abbrev got : ShardedDatabase
got = (Step.get hash (clock_at 300) key at_start.db).1

-- A client joins and gets the value of the log.
Runs-IsCovered_example : IsCovered hash (length log + 2) got
unfolding encode_command to_string
Runs-IsCovered_example =
    Runs-IsCovered hash config around 2 at_start (record (client_joined at_start) { db = got })
      starts (goes_on joined (goes_on (accessed (Access.get (clock_at 300) key)) (rests _)))
      (omega arith)
