-- ===== src/CircuitBreaker/Consecutive.antt =====
-- circuitbreaker/consecutive.go: `ConsecutiveBreaker`. Each part that runs under `cb.mu` is one
-- function from the breaker to the breaker. `execute` composes them as one caller sees them; in
-- `Concurrent` the parts of several callers interleave.
pub mod Concurrent
pub mod Bounds
pub mod Probes
pub mod Recovery
pub mod Tripping
use go_libs.Common.{
  ℕ, ◌+◌, ◌-◌, Bool, true, false, ◌&&◌, Option, none, some, List, [], ◌++◌, if◌then◌else◌, ℤ, pos,
  leb_ℤ, ltb_ℤ, default_ℤ,
}
use go_libs.CircuitBreaker.{
  State, closed, opened, half_open, same, Change, Options, sub_time, Outcome, returns, panics,
  Request, Reply, replies, repanics, changes, or_ctx_err,
}

pub record ConsecutiveBreaker : Type 0 where
  pub state : State
  pub failures : ℕ
  pub max_failures : ℤ
  pub reset_timeout : ℤ
  pub opened_at : ℕ
  pub half_open_in_flight : ℕ
  pub max_half_open : ℤ
  pub on_state_change : Bool
  pub requests_metric : ℕ
  pub failures_metric : ℕ
  pub state_metric : State

unfoldable pub new_consecutive_breaker : ℤ → ℤ → Options → ConsecutiveBreaker
new_consecutive_breaker max_failures reset_timeout o = record {
  state = closed;
  failures = 0;
  max_failures = max_failures;
  reset_timeout = reset_timeout;
  opened_at = 0;
  half_open_in_flight = 0;
  max_half_open = default_ℤ o.max_half_open (pos 1);
  on_state_change = o.on_state_change;
  requests_metric = 0;
  failures_metric = 0;
  state_metric = closed;
}

unfoldable pub init_defaults : ConsecutiveBreaker → ConsecutiveBreaker
init_defaults cb = record cb {
  max_failures = default_ℤ cb.max_failures (pos 5);
  reset_timeout = default_ℤ cb.reset_timeout (pos 60_000_000_000);
  max_half_open = default_ℤ cb.max_half_open (pos 1);
}

-- The new breaker, and the callback to make once the lock is released.
unfoldable pub transition : ConsecutiveBreaker → State → ConsecutiveBreaker × Option Change
transition cb to = if same cb.state to then (cb, none) else (
  record cb { state = to; state_metric = to },
  (if cb.on_state_change then some (record { from = cb.state; to = to }) else none),
)

-- `halfOpenInFlight--`, then reset to 0 if negative: the subtraction that stops at 0.
unfoldable pub decrement_half_open : ConsecutiveBreaker → ConsecutiveBreaker
decrement_half_open cb = record cb { half_open_in_flight = cb.half_open_in_flight - 1 }

-- `openedAt = now; metrics.Failures.Inc(); transition(StateOpen)`, of a failed probe.
reopen : ConsecutiveBreaker → ℕ → ConsecutiveBreaker × Option Change
unfolding transition
reopen cb now =
    transition (record cb { opened_at = now; failures_metric = cb.failures_metric + 1 }) opened

-- `failures++; metrics.Failures.Inc()`, and the trip at the threshold.
count_failure : ConsecutiveBreaker → ℕ → ConsecutiveBreaker × Option Change
unfolding transition
count_failure cb now =
    let c = record cb { failures = cb.failures + 1; failures_metric = cb.failures_metric + 1 } in
    if leb_ℤ c.max_failures (pos c.failures)
    then transition (record c { opened_at = now }) opened
    else (c, none)

unfoldable pub on_panic : ConsecutiveBreaker → Bool → ℕ → ConsecutiveBreaker × Option Change
unfolding reopen count_failure decrement_half_open
on_panic cb is_probe now =
    if is_probe
    then reopen (decrement_half_open cb) now
    else if same cb.state closed
    then count_failure cb now
    else (cb, none)

-- `canExecute` after `initDefaults`: the breaker, `allowed`, `isProbe` and the callback.
admit : State → ConsecutiveBreaker → ℕ → ConsecutiveBreaker × Bool × Bool × Option Change
unfolding transition
admit closed cb now = (cb, true, false, none)
admit opened cb now =
    if ltb_ℤ cb.reset_timeout (sub_time now cb.opened_at)
    then (let (c, notify) = transition cb half_open in
        (record c { half_open_in_flight = 1 }, true, true, notify))
    else (cb, false, false, none)
admit half_open cb now =
    if ltb_ℤ (pos cb.half_open_in_flight) cb.max_half_open
    then (record cb { half_open_in_flight = cb.half_open_in_flight + 1 }, true, true, none)
    else (cb, false, false, none)

unfoldable pub can_execute :
    ConsecutiveBreaker → ℕ → ConsecutiveBreaker × Bool × Bool × Option Change
unfolding admit init_defaults
can_execute cb now = admit cb.state (init_defaults cb) now

-- `State()` and `Failures()`: reads under the read lock.
unfoldable pub state_of : ConsecutiveBreaker → ℕ → State
state_of cb now =
    if same cb.state opened && ltb_ℤ cb.reset_timeout (sub_time now cb.opened_at)
    then half_open
    else cb.state

-- `is_canceled e` is `errors.Is(e, context.Canceled)`, and `circuit_open` is `ErrCircuitOpen`.
module _ {E : Type 0} (is_canceled : E → Bool) where
  -- `recordResult` for a probe, after `decrementHalfOpen`.
  record_probe : ConsecutiveBreaker → Option E → ℕ → ConsecutiveBreaker × Option Change × Option E
  unfolding reopen transition
  record_probe cb none now =
      let (c, notify) = transition (record cb { failures = 0 }) closed in (c, notify, none)
  record_probe cb (some err) now =
      if is_canceled err
      then (cb, none, some err)
      else (let (c, notify) = reopen cb now in (c, notify, some err))

  -- `recordResult` for another request, while the circuit is closed.
  record_closed : ConsecutiveBreaker → Option E → ℕ → ConsecutiveBreaker × Option Change × Option E
  unfolding count_failure
  record_closed cb none now = (record cb { failures = 0 }, none, none)
  record_closed cb (some err) now =
      if is_canceled err
      then (cb, none, some err)
      else (let (c, notify) = count_failure cb now in (c, notify, some err))

  unfoldable pub record_result :
      ConsecutiveBreaker → Bool → Option E → ℕ → ConsecutiveBreaker × Option Change × Option E
  unfolding record_probe record_closed decrement_half_open
  record_result cb is_probe err now =
      if is_probe
      then record_probe (decrement_half_open cb) err now
      else if same cb.state closed
      then record_closed cb err now
      else (cb, none, err)

  -- `Execute` from admission on. `before` are the callbacks that admission made.
  complete :
      ConsecutiveBreaker
      → Bool
      → List Change
      → Request E
      → ConsecutiveBreaker × Reply E × List Change
  unfolding on_panic record_result
  complete cb is_probe before r = elim r.outcome [
    | panics ↦
        let (c, notify) = on_panic cb is_probe r.ended in (c, repanics, before ++ changes notify)
    | returns err ↦
        let (c, notify, rec_err) = record_result cb is_probe (or_ctx_err err r.ctx_after) r.ended in
        (c, replies rec_err, before ++ changes notify)
  ]

  attempt :
      E
      → ConsecutiveBreaker × Bool × Bool × Option Change
      → Request E
      → ConsecutiveBreaker × Reply E × List Change
  unfolding complete
  attempt circuit_open (cb, allowed, is_probe, notify) r =
      if allowed
      then complete (record cb { requests_metric = cb.requests_metric + 1 }) is_probe
          (changes notify) r
      else (cb, replies (some circuit_open), [])

  unfoldable pub execute :
      E → ConsecutiveBreaker → Request E → ConsecutiveBreaker × Reply E × List Change
  unfolding attempt can_execute
  execute circuit_open cb r = elim r.ctx_before [
    | some err ↦ (cb, replies (some err), [])
    | none ↦ attempt circuit_open (can_execute cb r.started) r
  ]
