-- ===== src/CircuitBreaker/Consecutive/Recovery.antt =====
-- An open breaker: rejection until the reset timeout, one probe after it, and the state that a
-- reader sees.
use go_libs.Common.{
  ℕ, ◌≡◌, ◌≢◌, ◌↔◌, Bool, true, false, Option, none, some, arith, pos, ◌≤ℤ◌, ◌<ℤ◌, [],
  if◌then◌else◌,
}
use go_libs.CircuitBreaker.{
  State, closed, opened, half_open, sub_time, Request, replies, Outcome, returns, panics,
  or_ctx_err,
}
use go_libs.CircuitBreaker.Consecutive.{ConsecutiveBreaker, can_execute, state_of, execute}

-- The configuration is the one that `initDefaults` leaves alone.
pub record Configured (cb : ConsecutiveBreaker) : Type 0 where
  pub threshold : pos 1 ≤ℤ cb.max_failures
  pub timeout : pos 1 ≤ℤ cb.reset_timeout
  pub slots : pos 1 ≤ℤ cb.max_half_open

-- `State()` at a clock reading tells what `canExecute` does at that reading. It is closed exactly
-- when a request is admitted as a plain one; it is half-open whenever one is admitted as a probe;
-- where it is open no request is admitted; and where it is half-open a request is rejected only
-- if the breaker is half-open already with all its probe slots in use.
state_of-can_execute :
    (cb : ConsecutiveBreaker) (now : ℕ)
    → Configured cb
    → let (c, allowed, is_probe, notify) = can_execute cb now in
      ((state_of cb now ≡ closed) ↔ ((allowed ≡ true) × (is_probe ≡ false)))
      × (is_probe ≡ true → state_of cb now ≡ half_open)
      × (state_of cb now ≡ opened → allowed ≡ false)
      × (state_of cb now ≡ half_open
          → allowed ≡ false
          → (cb.state ≡ half_open) × (cb.max_half_open ≤ℤ pos cb.half_open_in_flight))
unfolding state_of can_execute
state_of-can_execute cb now v = (ground arith, ground arith, ground arith, ground arith)

module _ {E : Type 0} (is_canceled : E → Bool) (circuit_open : E) where
  -- While a configured breaker is open and its reset timeout has not passed, `Execute` with a
  -- live context returns `ErrCircuitOpen`, changes nothing, makes no callback and does not look
  -- at what the wrapped function would do.
  pub open_rejects :
      (cb : ConsecutiveBreaker) (r : Request E)
      → Configured cb
      → cb.state ≡ opened
      → sub_time r.started cb.opened_at ≤ℤ cb.reset_timeout
      → r.ctx_before ≡ none
      → execute is_canceled circuit_open cb r ≡ (cb, replies (some circuit_open), [])
  unfolding execute
  open_rejects cb r v st tm ctx = ground arith

  -- The state after a probe that found every other slot free.
  abbrev pub after_probe : Outcome E → Option E → State
  after_probe panics ctx = opened
  after_probe (returns err) ctx = elim (or_ctx_err err ctx) [
    | none ↦ closed
    | some e ↦ if is_canceled e then half_open else opened
  ]

  -- The first call after the reset timeout runs as a probe. It closes the breaker and clears the
  -- failures if neither the wrapped function nor the context gives an error; it leaves the breaker
  -- half-open with the slot free again, and the failures as they were, if the error is a
  -- cancellation; and it opens the breaker again, from the completion time on, with the failures
  -- as they were, on any other error and on a panic.
  pub probe_decides :
      (cb : ConsecutiveBreaker) (r : Request E)
      → Configured cb
      → cb.state ≡ opened
      → cb.reset_timeout <ℤ sub_time r.started cb.opened_at
      → r.ctx_before ≡ none
      → let c = (execute is_canceled circuit_open cb r).0 in
        (c.state ≡ after_probe r.outcome r.ctx_after)
        × (c.half_open_in_flight ≡ 0)
        × (c.state ≡ closed → c.failures ≡ 0)
        × (c.state ≢ closed → c.failures ≡ cb.failures)
        × (c.state ≡ opened → c.opened_at ≡ r.ended)
  unfolding execute
  probe_decides cb r v st tm ctx =
      (ground arith, ground arith, ground arith, ground arith, ground arith)
