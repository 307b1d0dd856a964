-- ===== src/Server/Aof/Deadlines.antt =====
-- How well a deadline survives in the log, whose times are whole milliseconds of the system clock.
use rustkv_lab.Prelude.{ℕ, ◌+◌, ◌*◌, ◌≤◌, ◌<◌, Option, none, some, arith}
use rustkv_lab.Core.Time.{duration_until_unix_ms, as_millis, nanos_per_milli, u64_max}
use rustkv_lab.Server.Aof.{expire_at_ms_from_now}

-- What is left until the deadline: less than a millisecond too much, less than two too little.
abbrev pub IsNear : ℕ → ℕ → Option ℕ → Type 0
IsNear now deadline none = deadline < now + 2 * nanos_per_milli
IsNear now deadline (some left) =
    (now + left < deadline + nanos_per_milli) × (deadline < now + left + 2 * nanos_per_milli)

-- A deadline that is logged in milliseconds of the system clock, and read back at any later or
-- earlier system time, moves back by less than two milliseconds and ahead by less than one, if it
-- is below 2^64 milliseconds.
pub expire_at_ms_from_now-IsNear :
    (logged duration now : ℕ)
    → as_millis logged + as_millis duration ≤ u64_max
    → IsNear now
        (logged + duration)
        (duration_until_unix_ms (some now) (expire_at_ms_from_now (some logged) duration))
unfolding duration_until_unix_ms expire_at_ms_from_now
expire_at_ms_from_now-IsNear logged duration now h = ground arith
