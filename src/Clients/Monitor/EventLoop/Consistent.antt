-- ===== src/Clients/Monitor/EventLoop/Consistent.antt =====
-- What the monitor shows after any number of ticks, by the results of the ticks.
use rustkv_lab.Prelude.{
  ℕ, ◌≡◌, inl, inr, refl, subst, some_injective, Option, none, some, Option-cases, List, [], ◌∷◌,
  Bytes, arith,
}
use rustkv_lab.Clients.Response.{Response, received, failed, panicked, out_of_fuel}
use rustkv_lab.Clients.Monitor.{connecting, online, offline, Metrics, no_metrics}
use rustkv_lab.Clients.Monitor.EventLoop.{
  Floats, MonitorState, EventLoop, new_loop, refresh_once, run,
}

-- The last result of the ticks, or `before` without a tick.
abbrev pub last_result :
    Option (Response Metrics) → List (Response Metrics × ℕ) → Option (Response Metrics)
last_result before [] = before
last_result before ((result, now) ∷ ticks) = last_result (some result) ticks

abbrev fetched_by : Response Metrics → ℕ → Option (Metrics × ℕ) → Option (Metrics × ℕ)
fetched_by (received metrics) now before = some (metrics, now)
fetched_by (failed error) now before = before
fetched_by panicked now before = before
fetched_by out_of_fuel now before = before

-- The metrics of the last tick that fetched some, and its time, or `before` without one.
abbrev pub last_fetch : Option (Metrics × ℕ) → List (Response Metrics × ℕ) → Option (Metrics × ℕ)
last_fetch before [] = before
last_fetch before ((result, now) ∷ ticks) = last_fetch (fetched_by result now before) ticks

-- The status and the error after this last result.
abbrev pub IsTold : {F : Type 0} → Option (Response Metrics) → MonitorState F → Type 0
IsTold none state = (state.status ≡ connecting) × (state.last_error ≡ none)
IsTold (some (received metrics)) state = (state.status ≡ online) × (state.last_error ≡ none)
IsTold (some (failed error)) state = (state.status ≡ offline) × (state.last_error ≡ some error)
IsTold (some panicked) state = ¬ Unit
IsTold (some out_of_fuel) state = ¬ Unit

-- The metrics that are shown, their time and the sample for the next rate, after this last fetch.
abbrev pub IsSampled : {F : Type 0} → Option (Metrics × ℕ) → EventLoop F → Type 0
IsSampled none self =
    (self.state.metrics ≡ no_metrics)
    × (self.state.last_updated ≡ none)
    × (self.previous_total_commands ≡ none)
    × (self.previous_sample_at ≡ none)
IsSampled (some (metrics, t)) self =
    (self.state.metrics ≡ metrics)
    × (self.state.last_updated ≡ some t)
    × (self.previous_total_commands ≡ some metrics.total_commands)
    × (self.previous_sample_at ≡ some t)

-- What a monitor shows whose last result and last fetch are these.
pub record Shows {F : Type 0} (result : Option (Response Metrics)) (fetch : Option (Metrics × ℕ))
    (self : EventLoop F) : Type 0 where
  pub told : IsTold result self.state
  pub sampled : IsSampled fetch self

module _ (floats : Floats) where
  new_loop-Shows : (addr : Bytes) → Shows none none (new_loop floats addr)
  unfolding new_loop
  new_loop-Shows addr = record { told = (refl, refl); sampled = (refl, refl, refl, refl) }

  failed-IsSampled :
      (fetch : Option (Metrics × ℕ)) (error : Bytes) (self : EventLoop floats.F)
      → IsSampled fetch self
      → IsSampled fetch
          (record self { state = record self.state { status = offline; last_error = some error } })
  failed-IsSampled none error self i = i
  failed-IsSampled (some (metrics, t)) error self i = i

  -- A refresh that is `some`.
  refresh_once-Shows :
      (result : Response Metrics) (now : ℕ) (before : Option (Response Metrics))
      (fetch : Option (Metrics × ℕ)) (self self' : EventLoop floats.F)
      → Shows before fetch self
      → refresh_once floats result now self ≡ some self'
      → Shows (some result) (fetched_by result now fetch) self'
  unfolding refresh_once
  refresh_once-Shows (received metrics) now before fetch self self' i e =
      subst (Shows (some (received metrics)) (some (metrics, now))) (some_injective e)
        (record { told = (refl, refl); sampled = (refl, refl, refl, refl) })
  refresh_once-Shows (failed error) now before fetch self self' i e =
      subst (Shows (some (failed error)) fetch) (some_injective e)
        (record { told = (refl, refl); sampled = failed-IsSampled fetch error self i.sampled })
  refresh_once-Shows panicked now before fetch self self' i e = absurd (ground (arith, e))
  refresh_once-Shows out_of_fuel now before fetch self self' i e = absurd (ground (arith, e))

  -- From a loop that shows these, any ticks.
  run_from-Shows :
      (ticks : List (Response Metrics × ℕ)) (before : Option (Response Metrics))
      (fetch : Option (Metrics × ℕ)) (self self' : EventLoop floats.F)
      → Shows before fetch self
      → run floats ticks self ≡ some self'
      → Shows (last_result before ticks) (last_fetch fetch ticks) self'
  unfolding run
  run_from-Shows [] before fetch self self' i e = subst (Shows before fetch) (some_injective e) i
  run_from-Shows ((result, now) ∷ ticks) before fetch self self' i e =
      elim (Option-cases (refresh_once floats result now self)) [
        | inl p ↦ absurd (ground (arith, rw p at e))
        | inr (next, p) ↦
            run_from-Shows ticks (some result) (fetched_by result now fetch) next self'
              (refresh_once-Shows result now before fetch self next i p) (rw p at e)
      ]

  -- After any ticks of the monitor, where none panics: before the first tick the monitor is
  -- connecting, after a tick that fetched metrics it is online and shows no error, and after one
  -- that failed it is offline and shows its error; and the metrics that are shown, the time of the
  -- last update and the sample for the next rate are those of the last tick that fetched some, or
  -- the initial ones without one.
  pub run-Shows :
      (addr : Bytes) (ticks : List (Response Metrics × ℕ)) (self : EventLoop floats.F)
      → run floats ticks (new_loop floats addr) ≡ some self
      → Shows (last_result none ticks) (last_fetch none ticks) self
  run-Shows addr ticks self =
      run_from-Shows ticks none none (new_loop floats addr) self (new_loop-Shows addr)
