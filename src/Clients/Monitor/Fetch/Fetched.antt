-- ===== src/Clients/Monitor/Fetch/Fetched.antt =====
-- The monitor shows the counters of the server that it asks.
use rustkv_lab.Prelude.{
  ℕ, ◌<◌, ◌≡◌, refl, ap, ◌∙◌, Bool, Option, some, List, [], ◌∷◌, Result, append-nil, Bytes, length,
  ok, arith, String,
}
use rustkv_lab.Text.{codes}
use rustkv_lab.Text.Decimal.{to_string}
use rustkv_lab.Protocol.Resp.{RespFrame, bulk_string}
use rustkv_lab.Protocol.Encoder.{encode_resp}
use rustkv_lab.Protocol.Parser
use rustkv_lab.Protocol.Parser.{parse_resp}
use rustkv_lab.Protocol.Parser.RoundTrip.{message_limit, parse_resp-encode_resp}
use rustkv_lab.Core.Error.{KvResult}
use rustkv_lab.Core.Time.{Clock}
use rustkv_lab.Core.Sharded
use rustkv_lab.Core.Command
use rustkv_lab.Core.Stats
use rustkv_lab.Core.Stats.{ServerStats, ServerStatsSnapshot}
use rustkv_lab.Core.Executor.{execute_command, dispatch}
use rustkv_lab.Server.Aof.Frames.{ReadsBack}
use rustkv_lab.Server.Client.{
  Server, Reading, Reaction, reply, is_write_command, handle_command, handle_frame,
}
use rustkv_lab.Server.Connection.Chunks.{reads_of, bytes_of}
use rustkv_lab.Clients.Response.{received, encode_command}
use rustkv_lab.Clients.Response.Arrives.{read_response-Arrived}
use rustkv_lab.Clients.Cli.Requests.{info-args, encode_command-ReadsBack}
use rustkv_lab.Clients.Cli.OneShot.{handle_frame_of}
use rustkv_lab.Clients.Monitor.{
  Metrics, SerdeJson, field_u64, field_bool, field_string, metrics_of, parse_metrics,
}
use rustkv_lab.Clients.Monitor.Fetch.{
  reads, linked, error_texts, encode_info_command, fetch_metrics, metrics_in,
}

-- The fields that the monitor knows, of a snapshot.
abbrev pub metrics_of_snapshot : ServerStatsSnapshot → Metrics
metrics_of_snapshot view = record {
  server_version = view.server_version;
  role = view.role;
  memory_estimate_bytes = view.memory_estimate_bytes;
  aof_enabled = view.aof_enabled;
  addr = view.addr;
  max_frame_size = view.max_frame_size;
  total_commands = view.total_commands;
  connected_clients = view.connected_clients;
  key_count = view.key_count;
  expired_keys = view.expired_keys;
  get_count = view.get_count;
  set_count = view.set_count;
  del_count = view.del_count;
  uptime_seconds = view.uptime_seconds;
}

module _ (serde : SerdeJson) where
  abbrev Has : {A : Type 0} → (serde.Value → Option A) → serde.Value → String → A → Type 0
  Has as_a value name a =
      (field : serde.Value) × (serde.get value (codes name) ≡ some field) × (as_a field ≡ some a)

  -- A value that the derived `Serialize` writes has the snapshot's fields under their names.
  pub record Describes (value : serde.Value) (view : ServerStatsSnapshot) : Type 0 where
    pub server_version : Has serde.as_str value "server_version" view.server_version
    pub role : Has serde.as_str value "role" view.role
    pub memory_estimate_bytes :
        Has serde.as_u64 value "memory_estimate_bytes" view.memory_estimate_bytes
    pub aof_enabled : Has serde.as_bool value "aof_enabled" view.aof_enabled
    pub addr : Has serde.as_str value "addr" view.addr
    pub max_frame_size : Has serde.as_u64 value "max_frame_size" view.max_frame_size
    pub total_commands : Has serde.as_u64 value "total_commands" view.total_commands
    pub connected_clients : Has serde.as_u64 value "connected_clients" view.connected_clients
    pub key_count : Has serde.as_u64 value "key_count" view.key_count
    pub expired_keys : Has serde.as_u64 value "expired_keys" view.expired_keys
    pub get_count : Has serde.as_u64 value "get_count" view.get_count
    pub set_count : Has serde.as_u64 value "set_count" view.set_count
    pub del_count : Has serde.as_u64 value "del_count" view.del_count
    pub uptime_seconds : Has serde.as_u64 value "uptime_seconds" view.uptime_seconds

  field_u64_of :
      (value : serde.Value) (name : String) (n : ℕ)
      → Has serde.as_u64 value name n
      → field_u64 serde value name ≡ n
  unfolding field_u64
  field_u64_of value name n (field, e, f) = rw (e, f) refl

  field_bool_of :
      (value : serde.Value) (name : String) (b : Bool)
      → Has serde.as_bool value name b
      → field_bool serde value name ≡ b
  unfolding field_bool
  field_bool_of value name b (field, e, f) = rw (e, f) refl

  field_string_of :
      (value : serde.Value) (name : String) (s : Bytes)
      → Has serde.as_str value name s
      → field_string serde value name ≡ s
  unfolding field_string
  field_string_of value name s (field, e, f) = rw (e, f) refl

  metrics_of_described :
      (value : serde.Value) (view : ServerStatsSnapshot)
      → Describes value view
      → metrics_of serde value ≡ metrics_of_snapshot view
  metrics_of_described value view d =
      rw
        (
          field_string_of value "server_version" view.server_version d.server_version,
          field_string_of value "role" view.role d.role,
          field_string_of value "addr" view.addr d.addr,
          field_bool_of value "aof_enabled" view.aof_enabled d.aof_enabled,
          field_u64_of value "memory_estimate_bytes" view.memory_estimate_bytes
              d.memory_estimate_bytes,
          field_u64_of value "max_frame_size" view.max_frame_size d.max_frame_size,
          field_u64_of value "total_commands" view.total_commands d.total_commands,
          field_u64_of value "connected_clients" view.connected_clients d.connected_clients,
          field_u64_of value "key_count" view.key_count d.key_count,
          field_u64_of value "expired_keys" view.expired_keys d.expired_keys,
          field_u64_of value "get_count" view.get_count d.get_count,
          field_u64_of value "set_count" view.set_count d.set_count,
          field_u64_of value "del_count" view.del_count d.del_count,
          field_u64_of value "uptime_seconds" view.uptime_seconds d.uptime_seconds,
        )
        refl

info_request : ReadsBack Command.info encode_info_command []
unfolding encode_info_command encode_command to_string
info_request = encode_command-ReadsBack Command.info (codes "INFO" ∷ []) [] info-args (omega arith)

-- The reads that return these bytes in time.
abbrev pub chunk_reads : List (ℕ × Bytes) → List (Result (Option Bytes) Bytes)
chunk_reads [] = []
chunk_reads ((b, chunk) ∷ chunks) = ok (b ∷ chunk) ∷ chunk_reads chunks

reads-chunk_reads : (chunks : List (ℕ × Bytes)) → reads (chunk_reads chunks) ≡ reads_of chunks
reads-chunk_reads [] = refl
reads-chunk_reads ((b, chunk) ∷ chunks) = ap (λ l. ok (b ∷ chunk) ∷ l) (reads-chunk_reads chunks)

fetch_metrics_of :
    (serde : SerdeJson) (debug : RespFrame → Bytes) (chunks : List (ℕ × Bytes)) (v : RespFrame)
    (n : ℕ)
    → parse_resp (bytes_of chunks) ≡ Parser.ok (v, n)
    → fetch_metrics serde debug (linked (chunk_reads chunks)) ≡ metrics_in serde debug v
unfolding fetch_metrics
fetch_metrics_of serde debug chunks v n p =
    let a = read_response-Arrived error_texts chunks [] v n p in
    rw (reads-chunk_reads chunks, a.response, a.alone) refl

-- What INFO takes of the counters.
abbrev pub info_view : Clock → Server → ServerStatsSnapshot
info_view c s =
    let (snapshot, db) = Sharded.info_snapshot c s.db in
    (Stats.snapshot c.instant (
      Stats.incr_expired_keys_by snapshot.expired_count (
        Stats.set_memory_estimate_bytes snapshot.memory_estimate_bytes
          (Stats.set_key_count snapshot.key_count s.stats)))).0

module _ (hash : Bytes → ℕ) (to_json_string : ServerStatsSnapshot → KvResult Bytes) where
  handle_command-info :
      (now : Reading) (s : Server) (json : Bytes)
      → to_json_string (info_view now.clock s) ≡ ok json
      → (handle_command hash to_json_string now Command.info s).0 ≡ reply (bulk_string json)
  unfolding handle_command is_write_command execute_command dispatch
  handle_command-info now s json e = rw e refl

  -- The server answers the monitor's request with its counters as JSON, and the monitor, which
  -- receives the answer in pieces of any size, each in time, shows those counters, if the serde
  -- crates read the JSON as a value that has the snapshot's fields under their names, and the
  -- answer is below 2^59 bytes.
  pub fetch_metrics_served :
      (serde : SerdeJson) (debug : RespFrame → Bytes) (now : Reading) (s : Server) (json : Bytes)
      (value : serde.Value) (chunks : List (ℕ × Bytes))
      → to_json_string (info_view now.clock s) ≡ ok json
      → serde.from_slice json ≡ ok value
      → Describes serde value (info_view now.clock s)
      → length (encode_resp (bulk_string json)) < message_limit
      → bytes_of chunks ≡ encode_resp (bulk_string json)
      → ((handle_frame hash to_json_string now encode_info_command s).0 ≡ reply (bulk_string json))
        × (fetch_metrics serde debug (linked (chunk_reads chunks))
            ≡ received (metrics_of_snapshot (info_view now.clock s)))
  fetch_metrics_served serde debug now s json value chunks e f d fits sent =
      let parsed : parse_resp (bytes_of chunks)
          ≡ Parser.ok (bulk_string json, length (encode_resp (bulk_string json))) =
        ap parse_resp sent
        ∙ rw append-nil at (parse_resp-encode_resp (bulk_string json) [] tt fits) in
      (
        ap (λ (r : Reaction × Server). r.0)
              (handle_frame_of hash to_json_string now Command.info encode_info_command s
                info_request)
            ∙ handle_command-info now s json e,
        fetch_metrics_of serde debug chunks (bulk_string json) _ parsed
            ∙ unfold parse_metrics in
              rw (f, metrics_of_described serde value (info_view now.clock s) d) refl,
      )
