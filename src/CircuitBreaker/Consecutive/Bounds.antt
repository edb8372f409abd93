-- ===== src/CircuitBreaker/Consecutive/Bounds.antt =====
-- What holds of a `ConsecutiveBreaker` in every state that concurrent callers can bring about.
use go_libs.Common.{ℕ, ◌≡◌, ◌⊎◌, Bool, true, false, Option, arith, ℤ, pos, ◌≤ℤ◌, ◌<ℤ◌}
use go_libs.CircuitBreaker.{closed, Options}
use go_libs.CircuitBreaker.Consecutive.{
  ConsecutiveBreaker, new_consecutive_breaker, can_execute, record_result, on_panic,
}
use go_libs.CircuitBreaker.Consecutive.Concurrent.{
  System, enter, start, Step, admission, probe_result, probe_panic, plain_result, plain_panic,
  Reach, here, next,
}

-- The probe slots in use stay within the configured number, a closed breaker is below its
-- threshold, and the gauge shows the state.
pub record Inv (cb : ConsecutiveBreaker) : Type 0 where
  pub slots : pos 1 ≤ℤ cb.max_half_open
  pub within : pos cb.half_open_in_flight ≤ℤ cb.max_half_open
  pub below : cb.state ≡ closed → (cb.failures ≡ 0) ⊎ (pos cb.failures <ℤ cb.max_failures)
  pub shown : cb.state_metric ≡ cb.state

new-Inv :
    (max_failures reset_timeout : ℤ) (o : Options)
    → Inv (new_consecutive_breaker max_failures reset_timeout o)
unfolding new_consecutive_breaker
new-Inv m r o = ground arith

can_execute-Inv : (cb : ConsecutiveBreaker) (now : ℕ) → Inv cb → Inv (can_execute cb now).0
unfolding can_execute
can_execute-Inv cb now v = ground arith

on_panic-Inv :
    (cb : ConsecutiveBreaker) (is_probe : Bool) (now : ℕ)
    → Inv cb
    → Inv (on_panic cb is_probe now).0
unfolding on_panic
on_panic-Inv cb is_probe now v = ground arith

module _ {E : Type 0} (is_canceled : E → Bool) where
  record_result-Inv :
      (cb : ConsecutiveBreaker) (is_probe : Bool) (err : Option E) (now : ℕ)
      → Inv cb
      → Inv (record_result is_canceled cb is_probe err now).0
  unfolding record_result
  record_result-Inv cb is_probe err now v = ground arith

  Step-Inv : {s t : System} → Step is_canceled s t → Inv s.breaker → Inv t.breaker
  unfolding enter
  Step-Inv {s} (admission now) v = grind (arith, can_execute-Inv s.breaker now v)
  Step-Inv (probe_result n now err e) v = record_result-Inv _ true err now v
  Step-Inv (probe_panic n now e) v = on_panic-Inv _ true now v
  Step-Inv (plain_result n now err e) v = record_result-Inv _ false err now v
  Step-Inv (plain_panic n now e) v = on_panic-Inv _ false now v

  Reach-Inv_from : {s t : System} → Reach is_canceled s t → Inv s.breaker → Inv t.breaker
  Reach-Inv_from here v = v
  Reach-Inv_from (next r st) v = Step-Inv st (Reach-Inv_from r v)

  -- However the critical sections of concurrent callers interleave, a breaker made by the
  -- constructor has at least one probe slot, uses at most the configured number of them, has
  -- fewer failures than its threshold (or none) while it is closed, and shows its state in its
  -- gauge.
  Reach-Inv :
      (max_failures reset_timeout : ℤ) (o : Options) {s : System}
      → Reach is_canceled (start max_failures reset_timeout o) s
      → Inv s.breaker
  unfolding start
  Reach-Inv m t o r = Reach-Inv_from r (new-Inv m t o)
