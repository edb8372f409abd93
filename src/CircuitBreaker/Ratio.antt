-- ===== src/CircuitBreaker/Ratio.antt =====
-- circuitbreaker/ratio.go: `RatioBreaker`. As in `Consecutive`, each part that runs under `rb.mu` is
-- one function from the breaker to the breaker, and `execute` composes them.
pub mod Concurrent
pub mod Window
pub mod Slots
use go_libs.Common.{
  ℕ, ◌+◌, ◌-◌, Bool, true, false, ◌&&◌, ◌||◌, Option, none, some, is_some, List, [], ◌∷◌, ◌++◌,
  if◌then◌else◌, ℤ, pos, leb_ℤ, ltb_ℤ, default_ℤ, ◌+ℤ◌, ◌-ℤ◌, length, Float,
}
use go_libs.CircuitBreaker.{
  State, closed, opened, half_open, same, Change, Options, sub_time, Outcome, returns, panics,
  Request, Reply, replies, repanics, changes, or_ctx_err,
}

pub record ReqRecord : Type 0 where
  pub ts : ℕ
  pub failed : Bool

pub record RatioBreaker (f : Float) : Type 0 where
  pub state : State
  pub failure_ratio : f.F
  pub min_requests : ℤ
  pub window : ℤ
  pub reset_timeout : ℤ
  pub opened_at : ℕ
  pub half_open_in_flight : ℕ
  pub max_half_open : ℤ
  pub records : List ReqRecord
  pub failure_count : ℤ
  pub on_state_change : Bool
  pub requests_metric : ℕ
  pub failures_metric : ℕ
  pub state_metric : State

-- The loop of `evaluateRatio` and the compaction: what is left of the records, and `failureCount`.
unfoldable pub prune : ℤ → List ReqRecord → ℤ → List ReqRecord × ℤ
prune cutoff [] count = ([], count)
prune cutoff (r ∷ rs) count =
    let rest = prune cutoff rs (if r.failed then count -ℤ pos 1 else count) in
    if ltb_ℤ (pos r.ts) cutoff then rest else (r ∷ rs, count)

-- `if failureRatio <= 0 || failureRatio > 1.0 { failureRatio = 0.5 }`.
abbrev pub default_ratio : (f : Float) → f.F → f.F
default_ratio f ratio =
    if f.leb ratio (f.of_nat 0) || f.ltb (f.of_nat 1) ratio then f.half else ratio

module _ {f : Float} where
  unfoldable pub new_ratio_breaker : f.F → ℤ → ℤ → ℤ → Options → RatioBreaker f
  new_ratio_breaker failure_ratio min_requests window reset_timeout o = record {
    state = closed;
    failure_ratio = default_ratio f failure_ratio;
    min_requests = default_ℤ min_requests (pos 10);
    window = default_ℤ window (pos 10_000_000_000);
    reset_timeout = default_ℤ reset_timeout (pos 30_000_000_000);
    opened_at = 0;
    half_open_in_flight = 0;
    max_half_open = default_ℤ o.max_half_open (pos 1);
    records = [];
    failure_count = pos 0;
    on_state_change = o.on_state_change;
    requests_metric = 0;
    failures_metric = 0;
    state_metric = closed;
  }

  unfoldable pub init_defaults : RatioBreaker f → RatioBreaker f
  init_defaults rb = record rb {
    failure_ratio = default_ratio f rb.failure_ratio;
    min_requests = default_ℤ rb.min_requests (pos 10);
    window = default_ℤ rb.window (pos 10_000_000_000);
    reset_timeout = default_ℤ rb.reset_timeout (pos 30_000_000_000);
    max_half_open = default_ℤ rb.max_half_open (pos 1);
  }

  -- The new breaker, and the callback to make once the lock is released.
  unfoldable pub transition : RatioBreaker f → State → RatioBreaker f × Option Change
  transition rb to = if same rb.state to then (rb, none) else (
    record rb { state = to; state_metric = to },
    (if rb.on_state_change then some (record { from = rb.state; to = to }) else none),
  )

  -- `halfOpenInFlight--`, then reset to 0 if negative: the subtraction that stops at 0.
  unfoldable pub decrement_half_open : RatioBreaker f → RatioBreaker f
  decrement_half_open rb = record rb { half_open_in_flight = rb.half_open_in_flight - 1 }

  -- `evaluateRatio` after the compaction.
  unfoldable pub decide_ratio : RatioBreaker f → ℕ → RatioBreaker f × Option Change
  decide_ratio rb now =
      let total = length rb.records in
      if leb_ℤ rb.min_requests (pos total)
      then (if f.leb rb.failure_ratio (f.div (f.of_int rb.failure_count) (f.of_nat total))
          then transition (record rb { opened_at = now }) opened
          else (rb, none))
      else (rb, none)

  unfoldable pub evaluate_ratio : RatioBreaker f → ℕ → RatioBreaker f × Option Change
  evaluate_ratio rb now =
      let (records, count) = prune (pos now -ℤ rb.window) rb.records rb.failure_count in
      decide_ratio (record rb { records = records; failure_count = count }) now

  -- `openedAt = now; metrics.Failures.Inc(); transition(StateOpen)`, of a failed probe.
  reopen : RatioBreaker f → ℕ → RatioBreaker f × Option Change
  unfolding transition
  reopen rb now =
      transition (record rb { opened_at = now; failures_metric = rb.failures_metric + 1 }) opened

  -- The append to the records, and the failure counters, before `evaluateRatio`.
  unfoldable pub add_record : RatioBreaker f → Bool → ℕ → RatioBreaker f
  add_record rb failed now =
      let rb' = record rb { records = rb.records ++ (record { ts = now; failed = failed } ∷ []) } in
      if failed
      then record rb' {
        failure_count = rb.failure_count +ℤ pos 1;
        failures_metric = rb.failures_metric + 1;
      }
      else rb'

  unfoldable pub on_panic : RatioBreaker f → Bool → ℕ → RatioBreaker f × Option Change
  unfolding reopen decrement_half_open
  on_panic rb is_probe now =
      if is_probe
      then reopen (decrement_half_open rb) now
      else if same rb.state closed
      then evaluate_ratio (add_record rb true now) now
      else (rb, none)

  -- `canExecute` after `initDefaults`: the breaker, `allowed`, `isProbe` and the callback.
  admit : State → RatioBreaker f → ℕ → RatioBreaker f × Bool × Bool × Option Change
  unfolding transition
  admit closed rb now = (rb, true, false, none)
  admit opened rb now =
      if ltb_ℤ rb.reset_timeout (sub_time now rb.opened_at)
      then (let (c, notify) = transition rb half_open in
          (record c { half_open_in_flight = 1 }, true, true, notify))
      else (rb, false, false, none)
  admit half_open rb now =
      if ltb_ℤ (pos rb.half_open_in_flight) rb.max_half_open
      then (record rb { half_open_in_flight = rb.half_open_in_flight + 1 }, true, true, none)
      else (rb, false, false, none)

  unfoldable pub can_execute : RatioBreaker f → ℕ → RatioBreaker f × Bool × Bool × Option Change
  unfolding admit init_defaults
  can_execute rb now = admit rb.state (init_defaults rb) now

  -- `State()`: a read under the read lock.
  unfoldable pub state_of : RatioBreaker f → ℕ → State
  state_of rb now =
      if same rb.state opened && ltb_ℤ rb.reset_timeout (sub_time now rb.opened_at)
      then half_open
      else rb.state

  -- `Failures()`: a read under the read lock.
  unfoldable pub failures_of : RatioBreaker f → ℤ
  failures_of rb = rb.failure_count

-- `is_canceled e` is `errors.Is(e, context.Canceled)`, and `circuit_open` is `ErrCircuitOpen`.
module _ {f : Float} {E : Type 0} (is_canceled : E → Bool) where
  -- `recordResult` for a probe, after `decrementHalfOpen`.
  record_probe : RatioBreaker f → Option E → ℕ → RatioBreaker f × Option Change
  unfolding reopen transition
  record_probe rb none now = transition (record rb { records = []; failure_count = pos 0 }) closed
  record_probe rb (some err) now = if is_canceled err then (rb, none) else reopen rb now

  -- `recordResult` for another request, while the circuit is closed: `errors.Is(nil, ...)` is false.
  record_closed : RatioBreaker f → Option E → ℕ → RatioBreaker f × Option Change
  record_closed rb none now = evaluate_ratio (add_record rb false now) now
  record_closed rb (some err) now =
      if is_canceled err then (rb, none) else evaluate_ratio (add_record rb true now) now

  unfoldable pub record_result :
      RatioBreaker f → Bool → Option E → ℕ → RatioBreaker f × Option Change
  unfolding record_probe record_closed decrement_half_open
  record_result rb is_probe err now =
      if is_probe
      then record_probe (decrement_half_open rb) err now
      else if same rb.state closed
      then record_closed rb err now
      else (rb, none)

  -- `Execute` from admission on. `before` are the callbacks that admission made.
  complete :
      RatioBreaker f → Bool → List Change → Request E → RatioBreaker f × Reply E × List Change
  unfolding on_panic record_result
  complete rb is_probe before r = elim r.outcome [
    | panics ↦
        let (c, notify) = on_panic rb is_probe r.ended in (c, repanics, before ++ changes notify)
    | returns err ↦
        let final = or_ctx_err err r.ctx_after in
        let (c, notify) = record_result rb is_probe final r.ended in
        (c, replies final, before ++ changes notify)
  ]

  attempt :
      E
      → RatioBreaker f × Bool × Bool × Option Change
      → Request E
      → RatioBreaker f × Reply E × List Change
  unfolding complete
  attempt circuit_open (rb, allowed, is_probe, notify) r =
      if allowed
      then complete (record rb { requests_metric = rb.requests_metric + 1 }) is_probe
          (changes notify) r
      else (rb, replies (some circuit_open), [])

  unfoldable pub execute : E → RatioBreaker f → Request E → RatioBreaker f × Reply E × List Change
  unfolding attempt can_execute
  execute circuit_open rb r = elim r.ctx_before [
    | some err ↦ (rb, replies (some err), [])
    | none ↦ attempt circuit_open (can_execute rb r.started) r
  ]
