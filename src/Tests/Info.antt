-- ===== src/Tests/Info.antt =====
-- The monitor's theorem, with a reader of JSON that knows one object.
use rustkv_lab.Prelude.{
  ℕ, ◌≡◌, refl, Bool, Option, none, some, List, [], ◌∷◌, arith, Bytes, bytes_eq, ok, if◌then◌else◌,
}
use rustkv_lab.Text.{codes}
use rustkv_lab.Text.Decimal.{to_string}
use rustkv_lab.Protocol.Resp.{bulk_string}
use rustkv_lab.Protocol.Encoder.{crlf, encode_resp}
use rustkv_lab.Core.Stats.{ServerStatsSnapshot}
use rustkv_lab.Server.Client.{reply, handle_frame}
use rustkv_lab.Clients.Response.{received}
use rustkv_lab.Clients.Monitor.{SerdeJson}
use rustkv_lab.Clients.Monitor.Fetch.{linked, encode_info_command, fetch_metrics}
use rustkv_lab.Clients.Monitor.Fetch.Fetched.{
  Describes, metrics_of_snapshot, chunk_reads, info_view, fetch_metrics_served,
}
use rustkv_lab.Tests.Store.{hash}
use rustkv_lab.Tests.Programs.{to_json, reading, server}

data Json : Type 0 where
  object : ServerStatsSnapshot → Json
  number : ℕ → Json
  flag : Bool → Json
  text : Bytes → Json

abbrev field : ServerStatsSnapshot → Bytes → Option Json
field view name =
    if bytes_eq name (codes "server_version")
    then some (text view.server_version)
    else if bytes_eq name (codes "role")
    then some (text view.role)
    else if bytes_eq name (codes "uptime_seconds")
    then some (number view.uptime_seconds)
    else if bytes_eq name (codes "memory_estimate_bytes")
    then some (number view.memory_estimate_bytes)
    else if bytes_eq name (codes "aof_enabled")
    then some (flag view.aof_enabled)
    else if bytes_eq name (codes "addr")
    then some (text view.addr)
    else if bytes_eq name (codes "max_frame_size")
    then some (number view.max_frame_size)
    else if bytes_eq name (codes "total_commands")
    then some (number view.total_commands)
    else if bytes_eq name (codes "connected_clients")
    then some (number view.connected_clients)
    else if bytes_eq name (codes "key_count")
    then some (number view.key_count)
    else if bytes_eq name (codes "expired_keys")
    then some (number view.expired_keys)
    else if bytes_eq name (codes "get_count")
    then some (number view.get_count)
    else if bytes_eq name (codes "set_count")
    then some (number view.set_count)
    else if bytes_eq name (codes "del_count")
    then some (number view.del_count)
    else none

abbrev get : Json → Bytes → Option Json
get (object view) name = field view name
get (number n) name = none
get (flag b) name = none
get (text s) name = none

abbrev as_u64 : Json → Option ℕ
as_u64 (number n) = some n
as_u64 (object view) = none
as_u64 (flag b) = none
as_u64 (text s) = none

abbrev as_bool : Json → Option Bool
as_bool (flag b) = some b
as_bool (object view) = none
as_bool (number n) = none
as_bool (text s) = none

abbrev as_str : Json → Option Bytes
as_str (text s) = some s
as_str (object view) = none
as_str (number n) = none
as_str (flag b) = none

abbrev view : ServerStatsSnapshot
view = info_view reading.clock server

abbrev serde : SerdeJson
serde = record {
  Value = Json;
  from_slice = λ bytes. ok (object view);
  get = get;
  as_u64 = as_u64;
  as_bool = as_bool;
  as_str = as_str;
}

view-Describes : Describes serde (object view) view
unfolding bytes_eq
view-Describes = record {
  server_version = (text view.server_version, refl, refl);
  role = (text view.role, refl, refl);
  memory_estimate_bytes = (number view.memory_estimate_bytes, refl, refl);
  aof_enabled = (flag view.aof_enabled, refl, refl);
  addr = (text view.addr, refl, refl);
  max_frame_size = (number view.max_frame_size, refl, refl);
  total_commands = (number view.total_commands, refl, refl);
  connected_clients = (number view.connected_clients, refl, refl);
  key_count = (number view.key_count, refl, refl);
  expired_keys = (number view.expired_keys, refl, refl);
  get_count = (number view.get_count, refl, refl);
  set_count = (number view.set_count, refl, refl);
  del_count = (number view.del_count, refl, refl);
  uptime_seconds = (number view.uptime_seconds, refl, refl);
}

-- `$2 {}`
abbrev json_chunks : List (ℕ × Bytes)
json_chunks = (b'$', b'2' ∷ []) ∷ (13, 10 ∷ b'{' ∷ b'}' ∷ crlf) ∷ []

fetch_metrics_served_example :
    ((handle_frame hash to_json reading encode_info_command server).0
      ≡ reply (bulk_string (codes "{}")))
    × (fetch_metrics serde (λ v. []) (linked (chunk_reads json_chunks))
        ≡ received (metrics_of_snapshot view))
unfolding encode_resp to_string
fetch_metrics_served_example =
    fetch_metrics_served hash to_json serde (λ v. []) reading server (codes "{}") (object view)
      json_chunks refl refl view-Describes (omega arith) refl
