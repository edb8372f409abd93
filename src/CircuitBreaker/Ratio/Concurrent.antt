-- ===== src/CircuitBreaker/Ratio/Concurrent.antt =====
-- circuitbreaker/ratio.go under concurrent callers, as in `Consecutive.Concurrent`: a step is one
-- critical section, and the order of the steps is free.
use go_libs.Common.{ℕ, suc, ◌≡◌, Bool, true, false, Option, ℤ, Float}
use go_libs.CircuitBreaker.{Options, Change}
use go_libs.CircuitBreaker.Ratio.{
  RatioBreaker, new_ratio_breaker, can_execute, record_result, on_panic,
}

-- `probes` and `plain` count the calls in flight.
pub record System (f : Float) : Type 0 where
  pub breaker : RatioBreaker f
  pub probes : ℕ
  pub plain : ℕ

-- The calls in flight after an admission test.
unfoldable pub enter :
    {f : Float} → System f → RatioBreaker f × Bool × Bool × Option Change → System f
enter s (cb, false, is_probe, notify) = record s { breaker = cb }
enter s (cb, true, true, notify) = record s { breaker = cb; probes = suc s.probes }
enter s (cb, true, false, notify) = record s { breaker = cb; plain = suc s.plain }

unfoldable pub start : {f : Float} → f.F → ℤ → ℤ → ℤ → Options → System f
start failure_ratio min_requests window reset_timeout o = record {
  breaker = new_ratio_breaker failure_ratio min_requests window reset_timeout o;
  probes = 0;
  plain = 0;
}

module _ {f : Float} {E : Type 0} (is_canceled : E → Bool) where
  -- A call in flight ends by a result or by a panic. Only a call in flight can end.
  pub data Step (s : System f) : System f → Type 0 where
    admission : (now : ℕ) → Step s (enter s (can_execute s.breaker now))
    probe_result :
        (n now : ℕ) (err : Option E)
        → s.probes ≡ suc n
        → Step s (record s {
          breaker = (record_result is_canceled s.breaker true err now).0;
          probes = n;
        })
    probe_panic :
        (n now : ℕ)
        → s.probes ≡ suc n
        → Step s (record s { breaker = (on_panic s.breaker true now).0; probes = n })
    plain_result :
        (n now : ℕ) (err : Option E)
        → s.plain ≡ suc n
        → Step s (record s {
          breaker = (record_result is_canceled s.breaker false err now).0;
          plain = n;
        })
    plain_panic :
        (n now : ℕ)
        → s.plain ≡ suc n
        → Step s (record s { breaker = (on_panic s.breaker false now).0; plain = n })

  pub data Reach (s : System f) : System f → Type 0 where
    here : Reach s s
    next : {t u : System f} → Reach s t → Step t u → Reach s u
