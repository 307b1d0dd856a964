-- ===== src/Clients/Monitor/EventLoop.antt =====
-- `MonitorState` and `EventLoop`: what is shown, and how a second's answer changes it.
pub mod Consistent
use rustkv_lab.Prelude.{
  ℕ, ◌+◌, ◌-◌, ◌/◌, ◌%◌, Bool, true, false, Option, none, some, List, [], ◌∷◌, ◌++◌, Bytes, ltb,
  ◌==◌, if◌then◌else◌,
}
use rustkv_lab.Text.{codes}
use rustkv_lab.Text.Decimal.{to_string}
use rustkv_lab.Core.Time.{as_secs}
use rustkv_lab.Clients.Response.{Response, received, failed, panicked, out_of_fuel}
use rustkv_lab.Clients.Monitor.{
  ConnectionStatus, connecting, online, offline, Metrics, no_metrics, format_duration,
}

-- `F` is `f64`, `rate total nanos` the quotient of a count and a time.
pub record Floats : Type 1 where
  pub F : Type 0
  pub zero : F
  pub rate : ℕ → ℕ → F

pub record MonitorState (F : Type 0) : Type 0 where
  pub addr : Bytes
  pub metrics : Metrics
  pub status : ConnectionStatus
  pub qps : F
  pub last_error : Option Bytes
  -- a reading of the monotonic clock, in nanoseconds
  pub last_updated : Option ℕ

-- The channel `tx` carries `state` to the terminal after each refresh.
pub record EventLoop (F : Type 0) : Type 0 where
  pub addr : Bytes
  pub state : MonitorState F
  pub previous_total_commands : Option ℕ
  pub previous_sample_at : Option ℕ

unfoldable pub health_percent : ConnectionStatus → ℕ
health_percent online = 100
health_percent connecting = 50
health_percent offline = 0

-- `now` is the clock's reading when the text is made.
unfoldable pub last_updated_text : ℕ → Option ℕ → Bytes
unfolding to_string
last_updated_text now (some updated_at) =
    let elapsed = as_secs (now - updated_at) in
    if elapsed == 0 then codes "just now" else to_string elapsed ++ codes "s ago"
last_updated_text now none = codes "never"

module _ (floats : Floats) where
  unfoldable pub new_state : Bytes → MonitorState floats.F
  new_state addr = record {
    addr = addr;
    metrics = no_metrics;
    status = connecting;
    qps = floats.zero;
    last_error = none;
    last_updated = none;
  }

  unfoldable pub uptime_text : MonitorState floats.F → Bytes
  unfolding format_duration
  uptime_text state = format_duration state.metrics.uptime_seconds

  -- `EventLoop::new`
  unfoldable pub new_loop : Bytes → EventLoop floats.F
  unfolding new_state
  new_loop addr = record {
    addr = addr;
    state = new_state addr;
    previous_total_commands = none;
    previous_sample_at = none;
  }

  -- `duration_since` and `saturating_sub` stop at 0.
  abbrev pub qps_between : Option ℕ → Option ℕ → ℕ → ℕ → floats.F
  qps_between none sample total_commands now = floats.zero
  qps_between (some previous_total) none total_commands now = floats.zero
  qps_between (some previous_total) (some previous_sample_at) total_commands now =
      let elapsed = now - previous_sample_at in
      if ltb 0 elapsed then floats.rate (total_commands - previous_total) elapsed else floats.zero

  unfoldable pub calculate_qps : ℕ → ℕ → EventLoop floats.F → floats.F × EventLoop floats.F
  calculate_qps total_commands now self = (
    qps_between self.previous_total_commands self.previous_sample_at total_commands now,
    record self { previous_total_commands = some total_commands; previous_sample_at = some now },
  )

  abbrev pub updated : Metrics → ℕ → floats.F × EventLoop floats.F → EventLoop floats.F
  updated metrics now (qps, self) = record self {
    state = record self.state {
      qps = qps;
      metrics = metrics;
      status = online;
      last_error = none;
      last_updated = some now;
    };
  }

  -- A panic of the task ends the refreshes: `none`.
  unfoldable pub refresh_once :
      Response Metrics → ℕ → EventLoop floats.F → Option (EventLoop floats.F)
  unfolding calculate_qps
  refresh_once (received metrics) now self =
      some (updated metrics now (calculate_qps metrics.total_commands now self))
  refresh_once (failed error) now self =
      some (record self { state = record self.state { status = offline; last_error = some error } })
  refresh_once panicked now self = none
  refresh_once out_of_fuel now self = none

  abbrev after_refresh :
      (EventLoop floats.F → Option (EventLoop floats.F))
      → Option (EventLoop floats.F)
      → Option (EventLoop floats.F)
  after_refresh next none = none
  after_refresh next (some self) = next self

  -- `EventLoop::run`, for the ticks of its interval: what each fetch gave, and when.
  unfoldable pub run :
      List (Response Metrics × ℕ) → EventLoop floats.F → Option (EventLoop floats.F)
  unfolding refresh_once
  run [] self = some self
  run ((result, now) ∷ ticks) self = after_refresh (run ticks) (refresh_once result now self)
