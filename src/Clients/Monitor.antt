-- ===== src/Clients/Monitor.antt =====
-- The monitor, `app.rs` of rustkv-monitor: it asks a server for INFO once in a second, and keeps what
-- it was told. The operations of the serde_json crate, `{:?}` of a response, and the type `f64` with
-- its quotient are parameters.
pub mod Duration
pub mod Fetch
pub mod EventLoop
use rustkv_lab.Prelude.{
  ℕ, ◌+◌, ◌-◌, ◌/◌, ◌%◌, Bool, true, false, Option, none, some, String, List, [], ◌∷◌, ◌++◌, map,
  Bytes, ltb, ◌==◌, if◌then◌else◌, Result, ok, err, map_err, ◌>>=◌,
}
use rustkv_lab.Text.{codes}
use rustkv_lab.Text.Decimal.{to_string}
use rustkv_lab.Protocol.Resp.{RespFrame, simple_string, error, integer, bulk_string, array, null}
use rustkv_lab.Protocol.Parser
use rustkv_lab.Protocol.Parser.{Parse, parse_resp}
use rustkv_lab.Core.Time.{as_secs}
use rustkv_lab.Core.Executor.{protocol_to_string}
use rustkv_lab.Clients.Response.{
  Response, received, failed, panicked, out_of_fuel, and_then, Received, ErrorTexts, read_response,
  encode_command,
}

pub data ConnectionStatus : Type 0 where
  connecting : ConnectionStatus
  online : ConnectionStatus
  offline : ConnectionStatus

unfoldable pub label : ConnectionStatus → Bytes
label connecting = codes "CONNECTING"
label online = codes "ONLINE"
label offline = codes "OFFLINE"

pub record Metrics : Type 0 where
  pub server_version : Bytes
  pub role : Bytes
  pub memory_estimate_bytes : ℕ
  pub aof_enabled : Bool
  pub addr : Bytes
  pub max_frame_size : ℕ
  pub total_commands : ℕ
  pub connected_clients : ℕ
  pub key_count : ℕ
  pub expired_keys : ℕ
  pub get_count : ℕ
  pub set_count : ℕ
  pub del_count : ℕ
  pub uptime_seconds : ℕ

-- `Metrics::default()`
abbrev pub no_metrics : Metrics
no_metrics = record {
  server_version = [];
  role = [];
  memory_estimate_bytes = 0;
  aof_enabled = false;
  addr = [];
  max_frame_size = 0;
  total_commands = 0;
  connected_clients = 0;
  key_count = 0;
  expired_keys = 0;
  get_count = 0;
  set_count = 0;
  del_count = 0;
  uptime_seconds = 0;
}

-- Two digits or more, `{:02}`.
abbrev pub two_digits : ℕ → Bytes
two_digits n = if ltb n 10 then b'0' ∷ to_string n else to_string n

abbrev clock_text : ℕ → ℕ → ℕ → Bytes
clock_text hours minutes seconds =
    two_digits hours
    ++ codes "h "
    ++ two_digits minutes
    ++ codes "m "
    ++ two_digits seconds
    ++ codes "s"

unfoldable pub format_duration : ℕ → Bytes
unfolding to_string
format_duration seconds =
    let days = seconds / 86400 in
    let hours = seconds % 86400 / 3600 in
    let minutes = seconds % 3600 / 60 in
    let text = clock_text hours minutes (seconds % 60) in
    if ltb 0 days then to_string days ++ codes "d " ++ text else text

-- What serde_json does with the bytes of a value, and with a value.
pub record SerdeJson : Type 1 where
  pub Value : Type 0
  pub from_slice : Bytes → Result Bytes Value
  pub get : Value → Bytes → Option Value
  pub as_u64 : Value → Option ℕ
  pub as_bool : Value → Option Bool
  pub as_str : Value → Option Bytes

abbrev unwrap_or {ℓ} : {B : Type ℓ} → Option B → B → B
unwrap_or none d = d
unwrap_or (some b) d = b

-- `and_then` and `unwrap_or_default` on the field.
abbrev pub or_default {ℓ κ} : {A : Type ℓ} {B : Type κ} → Option A → (A → Option B) → B → B
or_default none f d = d
or_default (some a) f d = unwrap_or (f a) d

module _ (serde : SerdeJson) where
  unfoldable pub field_u64 : serde.Value → String → ℕ
  field_u64 value name = or_default (serde.get value (codes name)) serde.as_u64 0

  unfoldable pub field_bool : serde.Value → String → Bool
  field_bool value name = or_default (serde.get value (codes name)) serde.as_bool false

  unfoldable pub field_string : serde.Value → String → Bytes
  field_string value name = or_default (serde.get value (codes name)) serde.as_str []

  abbrev pub metrics_of : serde.Value → Metrics
  metrics_of value = record {
    server_version = field_string value "server_version";
    role = field_string value "role";
    memory_estimate_bytes = field_u64 value "memory_estimate_bytes";
    aof_enabled = field_bool value "aof_enabled";
    addr = field_string value "addr";
    max_frame_size = field_u64 value "max_frame_size";
    total_commands = field_u64 value "total_commands";
    connected_clients = field_u64 value "connected_clients";
    key_count = field_u64 value "key_count";
    expired_keys = field_u64 value "expired_keys";
    get_count = field_u64 value "get_count";
    set_count = field_u64 value "set_count";
    del_count = field_u64 value "del_count";
    uptime_seconds = field_u64 value "uptime_seconds";
  }

  unfoldable pub parse_metrics : Bytes → Result Bytes Metrics
  unfolding field_u64 field_bool field_string
  parse_metrics bytes =
      map_err (λ error. codes "invalid INFO json: " ++ error) (serde.from_slice bytes) >>= λ value.
      ok (metrics_of value)
