-- ===== src/Lib.antt =====
-- RustKV-Lab, a key-value store with a RESP server.
--
-- The program. A client's bytes reach a `Connection`, which splits them into frames with the parser
-- of crates/rustkv-protocol. `handle_client` reads a frame as a `Command`, appends a write command to
-- the append-only log, if there is one, runs it with `execute_command` of crates/rustkv-core against
-- the `ShardedDatabase` and the counters, and sends the reply back through the encoder. A worker
-- sweeps expired entries in the background. When the server starts it replays the log. Four programs
-- send it frames and read its replies: a client for one command, a shell, a benchmark and a monitor,
-- which asks for the counters with INFO.
--
-- The files. Names are the source's; a file's own comment says more.
--   Prelude   Boolean tests, lists and results over the native numbers; Text: byte strings as lists
--             of numbers, UTF-8, ASCII and decimal numbers as the standard library treats them
--   Protocol  crates/rustkv-protocol/src: Resp (resp.rs), Encoder (encoder.rs), Parser (parser.rs)
--   Core      crates/rustkv-core/src: Time, Entry (entry.rs), Database, Sharded (db.rs, storage.rs),
--             Error (error.rs), Command (command.rs), Stats (stats.rs), Executor (executor.rs);
--             HashMap and Sort stand for the standard library's map and sort
--   Server    crates/rustkv-server/src: Aof with Aof/Rewrite (aof.rs, and maybe_rewrite_aof of
--             server.rs), Config, Client, Startup and Run (server.rs, main.rs),
--             Connection (connection.rs), Ttl (ttl.rs);
--             Disk stands for the operating system's files
--   Clients   the programs that talk to the server: Response (encode_command and read_response, which
--             each of them has), Cli (crates/rustkv-cli/src/main.rs), Shell with Line, App, Session
--             and Keys (crates/rustkv-cli/src/tui.rs), Bench (crates/rustkv-bench/src/main.rs),
--             Monitor with Duration, Fetch and EventLoop (crates/rustkv-monitor/src/app.rs)
--   Tests     the theorems at concrete inputs
--
-- State. The store is a list of shards, each an association list from keys to entries, with the key
-- count that the program keeps in an atomic. An operation takes the store and returns an outcome and
-- the store after it; the outcome is a panic where the program panics. An operation on one
-- key holds the lock of its shard, one on all shards the lock of the store; DEL takes a lock for each
-- of its keys. Machine integers wrap around where the program's do; `Instant` sums that do not fit
-- panic.
--
-- The server as a whole is a relation: `start` gives what the tasks share, and a `Step` of `Run` is what
-- one task does to it under one lock, or to the counters, which have none. A run is any interleaving
-- of steps, also of tasks that panic; `Access` has what is done to the store under one lock, and takes
-- accesses to different shards that overlap one after the other.
--
-- Parameters. `hash` is the standard library's hasher, `to_json_string` the serde crates' encoder.
-- A `Clock` holds what an operation reads of the monotonic and the system clock; the theorems on
-- visibility ask that a later reading is not smaller. `WriteFault` is an append to the log that
-- fails after some of its bytes: at once, or late, as tokio's `File` reports a write in the
-- background. `Disk` carries which of the calls to come fail. A socket is the list of what its
-- reads return. `SerdeJson` is serde_json's values with their accessors, `Floats` the
-- floating-point numbers of the monitor, `debug` the derived printing of a frame in an error, and
-- `elapsed` what the benchmark measures of a request. A client's texts are lists of code points
-- (Text/Chars), its terminal a list of events.
--
-- Fuel. The parser's recursion depth and the loop over the log run on fuel, one more than the number
-- of bytes: each level and each round takes a byte at least. The stack, which a deeply nested frame
-- exhausts in the program, is not modelled, nor is an allocation that fails.
--
-- Not modelled: the interval of the workers, the accept loop and the shutdown of the server, which
-- are tasks and sockets of tokio; arguments by clap; the drawing of the shell and of the monitor
-- (crates/rustkv-monitor/src/ui.rs) with ratatui; what the benchmark prints.
pub mod Prelude
pub mod Text
pub mod Protocol
pub mod Core
pub mod Server
pub mod Clients
pub mod Tests
