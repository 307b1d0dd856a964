-- ===== src/Core/Time.antt =====
-- The clocks as the program reads them, in nanoseconds, and the conversions of `db.rs` and `aof.rs`
-- between the two. A reading is an argument: the model fixes neither clock.
use rustkv_lab.Prelude.{
  ℕ, ◌+◌, ◌-◌, ◌*◌, ◌/◌, ◌^◌, ◌≡◌, refl, ◌⊎◌, inl, inr, Option, none, some, Bytes, ltb, leb,
  if◌then◌else◌, min,
}

abbrev pub nanos_per_milli : ℕ
nanos_per_milli = 1000000

abbrev pub nanos_per_sec : ℕ
nanos_per_sec = 1000000000

-- `Duration::from_millis`, `Duration::from_secs`, `as_millis`, `as_secs`
abbrev pub from_millis : ℕ → ℕ
from_millis ms = ms * nanos_per_milli

abbrev pub from_secs : ℕ → ℕ
from_secs s = s * nanos_per_sec

abbrev pub as_millis : ℕ → ℕ
as_millis d = d / nanos_per_milli

abbrev pub as_secs : ℕ → ℕ
as_secs d = d / nanos_per_sec

abbrev pub u64_max : ℕ
u64_max = 2 ^ 64 - 1

-- What one operation reads. `scan k` is the instant at which the entry of the key `k` is tested,
-- `instant` the instant that is read afterwards, for a deadline or a time to live, and `unix` the
-- system time since the epoch, `none` if the system clock stands before the epoch.
pub record Clock : Type 0 where
  pub scan : Bytes → ℕ
  pub instant : ℕ
  pub unix : Option ℕ

-- A thread returns a value, or panics.
pub data Outcome {ℓ} (A : Type ℓ) : Type ℓ where
  returned : A → Outcome A
  panicked : Outcome A

pub Outcome-cases {ℓ} : {A : Type ℓ} (o : Outcome A) → (o ≡ panicked) ⊎ ((a : A) × (o ≡ returned a))
Outcome-cases panicked = inl refl
Outcome-cases (returned a) = inr (a, refl)

-- An `Instant` counts seconds in an `i64`; `+` panics where the sum does not fit.
abbrev pub instant_limit : ℕ
instant_limit = 2 ^ 63 * nanos_per_sec

unfoldable pub instant_add : ℕ → ℕ → Outcome ℕ
instant_add now duration =
    if ltb (now + duration) instant_limit then returned (now + duration) else panicked

-- `none`: the time is past.
unfoldable pub duration_until_unix_ms : Option ℕ → ℕ → Option ℕ
duration_until_unix_ms none timestamp_ms = none
duration_until_unix_ms (some now) timestamp_ms =
    let now_ms = as_millis now in
    if leb timestamp_ms now_ms
    then none
    else some (from_millis (min (timestamp_ms - now_ms) u64_max))

unfoldable pub current_unix_ms : Option ℕ → ℕ
current_unix_ms none = 0
current_unix_ms (some now) = min (as_millis now) u64_max

-- The sum is in `u128`, where it saturates far above what the `min` lets through.
unfoldable pub unix_ms_after : ℕ → ℕ → ℕ
unix_ms_after base_ms duration = min (base_ms + as_millis duration) u64_max
