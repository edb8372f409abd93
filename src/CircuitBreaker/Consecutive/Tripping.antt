-- ===== src/CircuitBreaker/Consecutive/Tripping.antt =====
-- A closed breaker: counting failures, the trip at the threshold, cancellations and callbacks.
use go_libs.Common.{
  ℕ, suc, ◌+◌, ◌-◌, leb_ℤ, ◌≡◌, refl, ◌∙◌, Bool, true, false, Option, none, some, arith, pos, ◌<ℤ◌,
  List, [], ◌∷◌, if◌then◌else◌, length, All, not,
}
use go_libs.CircuitBreaker.{
  closed, opened, Change, same, Request, Outcome, returns, panics, or_ctx_err,
}
use go_libs.CircuitBreaker.Consecutive.{
  ConsecutiveBreaker, can_execute, record_result, on_panic, execute,
}
use go_libs.CircuitBreaker.Consecutive.Recovery.{Configured}

-- The callback that a change of state asks for.
abbrev notice : ConsecutiveBreaker → ConsecutiveBreaker → Option Change
notice cb c =
    if same cb.state c.state
    then none
    else if cb.on_state_change
    then some (record { from = cb.state; to = c.state })
    else none

module _ {E : Type 0} (is_canceled : E → Bool) where
  -- Each critical section asks for a callback exactly when it changes the state and a callback is
  -- registered, and then for the one with the state before and the state after.
  notice_exact :
      (cb : ConsecutiveBreaker) (is_probe : Bool) (err : Option E) (now : ℕ)
      → ((can_execute cb now).3 ≡ notice cb (can_execute cb now).0)
        × ((record_result is_canceled cb is_probe err now).1
            ≡ notice cb (record_result is_canceled cb is_probe err now).0)
        × ((on_panic cb is_probe now).1 ≡ notice cb (on_panic cb is_probe now).0)
  unfolding can_execute record_result on_panic
  notice_exact cb is_probe err now = (ground arith, ground arith, ground arith)

  -- A cancelled result, of a probe or of a plain request and in every state of the breaker, is
  -- passed on and changes nothing but the slot that a probe gives back.
  canceled_unchanged :
      (cb : ConsecutiveBreaker) (is_probe : Bool) (e : E) (now : ℕ)
      → is_canceled e ≡ true
      → let (c, notify, err) = record_result is_canceled cb is_probe (some e) now in
        (c ≡ (
          if is_probe then record cb { half_open_in_flight = cb.half_open_in_flight - 1 } else cb))
        × (notify ≡ none)
        × (err ≡ some e)
  unfolding record_result
  canceled_unchanged cb is_probe e now h = (ground arith, ground arith, ground arith)

  -- The wrapped function panics, or it or the context gives an error other than a cancellation.
  abbrev pub fails : Outcome E → Option E → Bool
  fails panics ctx = true
  fails (returns err) ctx = elim (or_ctx_err err ctx) [
    | none ↦ false
    | some e ↦ not (is_canceled e)
  ]

  abbrev pub Fails : Request E → Type 0
  Fails r = (r.ctx_before ≡ none) × (fails r.outcome r.ctx_after ≡ true)

  module _ (circuit_open : E) where
    -- The breaker after several calls of `Execute`, one after another.
    unfoldable pub run_calls : ConsecutiveBreaker → List (Request E) → ConsecutiveBreaker
    run_calls cb [] = cb
    run_calls cb (r ∷ rs) = run_calls (execute is_canceled circuit_open cb r).0 rs

    record Counted (cb c : ConsecutiveBreaker) (r : Request E) : Type 0 where
      configured : Configured c
      threshold : c.max_failures ≡ cb.max_failures
      counted : c.failures ≡ suc cb.failures
      state : c.state ≡ (if leb_ℤ cb.max_failures (pos (suc cb.failures)) then opened else closed)
      opened_at : c.state ≡ opened → c.opened_at ≡ r.ended

    failing_call :
        (cb : ConsecutiveBreaker) (r : Request E)
        → Configured cb
        → cb.state ≡ closed
        → Fails r
        → Counted cb (execute is_canceled circuit_open cb r).0 r
    unfolding execute
    failing_call cb r v st f = ground arith

    few_failures :
        (cb : ConsecutiveBreaker) (rs : List (Request E))
        → Configured cb
        → cb.state ≡ closed
        → All Fails rs
        → pos (cb.failures + length rs) <ℤ cb.max_failures
        → let c = run_calls cb rs in
          Configured c
          × (c.state ≡ closed)
          × (c.failures ≡ cb.failures + length rs)
          × (c.max_failures ≡ cb.max_failures)
    unfolding run_calls
    few_failures cb [] v st f h = (v, st, omega arith, refl)
    few_failures cb (r ∷ rs) v st (f, fs) h =
        let k = failing_call cb r v st f in
        let c = (execute is_canceled circuit_open cb r).0 in
        let d = few_failures c rs k.configured (ground arith) fs (ground arith) in
        (d.0, d.1, omega (arith, d.2, k.counted), d.3 ∙ k.threshold)

    -- A closed breaker stays closed and counts while failing calls come in one after another and
    -- their number stays below the threshold. The call that reaches the threshold opens it, from
    -- the completion of that call on.
    pub trips_at_threshold :
        (cb : ConsecutiveBreaker) (rs : List (Request E)) (r : Request E)
        → Configured cb
        → cb.state ≡ closed
        → All Fails rs
        → Fails r
        → cb.max_failures ≡ pos (suc (cb.failures + length rs))
        → let c = run_calls cb rs in
          let d = (execute is_canceled circuit_open c r).0 in
          (c.state ≡ closed)
          × (c.failures ≡ cb.failures + length rs)
          × (d.state ≡ opened)
          × (d.opened_at ≡ r.ended)
    trips_at_threshold cb rs r v st fs f h =
        let d = few_failures cb rs v st fs (ground arith) in
        let k = failing_call (run_calls cb rs) r d.0 d.1 f in
        let trip : (execute is_canceled circuit_open (run_calls cb rs) r).0.state ≡ opened =
          ground (arith, d.3) in
        (d.1, d.2, trip, k.opened_at trip)
