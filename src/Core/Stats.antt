-- ===== src/Core/Stats.antt =====
-- `stats.rs`. The counters are atomic: each update is one step, and `fetch_add` wraps around.
use rustkv_lab.Prelude.{ℕ, ◌+◌, ◌-◌, ◌%◌, ◌^◌, max, Bool, false, Bytes, if◌then◌else◌, ◌==◌}
use rustkv_lab.Text.{codes}
use rustkv_lab.Core.Time.{as_secs}

abbrev pub u64_limit : ℕ
u64_limit = 2 ^ 64

pub record ServerStats : Type 0 where
  pub server_version : Bytes
  pub role : Bytes
  pub addr : Bytes
  pub memory_estimate_bytes : ℕ
  pub aof_enabled : Bool
  pub max_frame_size : ℕ
  pub total_commands : ℕ
  pub connected_clients : ℕ
  pub key_count : ℕ
  pub expired_keys : ℕ
  pub get_count : ℕ
  pub set_count : ℕ
  pub del_count : ℕ
  pub uptime_seconds : ℕ
  pub started_at : ℕ

pub record ServerStatsSnapshot : Type 0 where
  pub server_version : Bytes
  pub role : Bytes
  pub uptime_seconds : ℕ
  pub memory_estimate_bytes : ℕ
  pub aof_enabled : Bool
  pub addr : Bytes
  pub max_frame_size : ℕ
  pub total_commands : ℕ
  pub connected_clients : ℕ
  pub key_count : ℕ
  pub expired_keys : ℕ
  pub get_count : ℕ
  pub set_count : ℕ
  pub del_count : ℕ

-- `version` is the package's version, which the build puts in.
unfoldable pub new : Bytes → ℕ → ServerStats
new version now = record {
  server_version = version;
  role = codes "standalone";
  addr = codes "unknown";
  memory_estimate_bytes = 0;
  aof_enabled = false;
  max_frame_size = 0;
  total_commands = 0;
  connected_clients = 0;
  key_count = 0;
  expired_keys = 0;
  get_count = 0;
  set_count = 0;
  del_count = 0;
  uptime_seconds = 0;
  started_at = now;
}

unfoldable pub configure_runtime : Bytes → Bool → ℕ → ServerStats → ServerStats
configure_runtime addr aof_enabled max_frame_size s = record s {
  addr = addr;
  aof_enabled = aof_enabled;
  max_frame_size = max_frame_size;
}

-- The up time never falls, and is stored back.
unfoldable pub snapshot : ℕ → ServerStats → ServerStatsSnapshot × ServerStats
snapshot now s =
    let uptime_seconds = max s.uptime_seconds (as_secs (now - s.started_at)) in
    (
      record {
        server_version = s.server_version;
        role = s.role;
        uptime_seconds = uptime_seconds;
        memory_estimate_bytes = s.memory_estimate_bytes;
        aof_enabled = s.aof_enabled;
        addr = s.addr;
        max_frame_size = s.max_frame_size;
        total_commands = s.total_commands;
        connected_clients = s.connected_clients;
        key_count = s.key_count;
        expired_keys = s.expired_keys;
        get_count = s.get_count;
        set_count = s.set_count;
        del_count = s.del_count;
      },
      record s { uptime_seconds = uptime_seconds },
    )

unfoldable pub incr_total_commands : ServerStats → ServerStats
incr_total_commands s = record s { total_commands = (s.total_commands + 1) % u64_limit }

unfoldable pub incr_connected_clients : ServerStats → ServerStats
incr_connected_clients s = record s { connected_clients = (s.connected_clients + 1) % u64_limit }

-- `checked_sub`: at zero the count stays.
unfoldable pub decr_connected_clients : ServerStats → ServerStats
decr_connected_clients s = record s {
  connected_clients = if s.connected_clients == 0 then 0 else s.connected_clients - 1;
}

unfoldable pub set_key_count : ℕ → ServerStats → ServerStats
set_key_count count s = record s { key_count = count }

unfoldable pub set_memory_estimate_bytes : ℕ → ServerStats → ServerStats
set_memory_estimate_bytes bytes s = record s { memory_estimate_bytes = bytes }

unfoldable pub incr_expired_keys_by : ℕ → ServerStats → ServerStats
incr_expired_keys_by count s = record s { expired_keys = (s.expired_keys + count) % u64_limit }

unfoldable pub incr_get_count : ServerStats → ServerStats
incr_get_count s = record s { get_count = (s.get_count + 1) % u64_limit }

unfoldable pub incr_set_count : ServerStats → ServerStats
incr_set_count s = record s { set_count = (s.set_count + 1) % u64_limit }

unfoldable pub incr_del_count : ServerStats → ServerStats
incr_del_count s = record s { del_count = (s.del_count + 1) % u64_limit }
