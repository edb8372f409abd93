-- ===== src/CircuitBreaker/Consecutive/Concurrent.antt =====
-- circuitbreaker/consecutive.go under concurrent callers. Between its two critical sections a
-- call of `Execute` is in flight, as a probe or as a plain request, and other calls may run
-- theirs. A step is one critical section, and the order of the steps is free.
use go_libs.Common.{ℕ, suc, ◌≡◌, Bool, true, false, Option, ℤ}
use go_libs.CircuitBreaker.{Options, Change}
use go_libs.CircuitBreaker.Consecutive.{
  ConsecutiveBreaker, new_consecutive_breaker, can_execute, record_result, on_panic,
}

-- `probes` and `plain` count the calls in flight.
pub record System : Type 0 where
  pub breaker : ConsecutiveBreaker
  pub probes : ℕ
  pub plain : ℕ

-- The calls in flight after an admission test.
unfoldable pub enter : System → ConsecutiveBreaker × Bool × Bool × Option Change → System
enter s (cb, false, is_probe, notify) = record s { breaker = cb }
enter s (cb, true, true, notify) = record s { breaker = cb; probes = suc s.probes }
enter s (cb, true, false, notify) = record s { breaker = cb; plain = suc s.plain }

unfoldable pub start : ℤ → ℤ → Options → System
start max_failures reset_timeout o = record {
  breaker = new_consecutive_breaker max_failures reset_timeout o;
  probes = 0;
  plain = 0;
}

module _ {E : Type 0} (is_canceled : E → Bool) where
  -- A call in flight ends by a result or by a panic. Only a call in flight can end.
  pub data Step (s : System) : System → Type 0 where
    admission : (now : ℕ) → Step s (enter s (can_execute s.breaker now))
    probe_result :
        (n now : ℕ) (err : Option E)
        → s.probes ≡ suc n
        → Step s (record s {
          breaker = (record_result is_canceled s.breaker true err now).0;
          probes = n;
        })
    probe_panic :
        (n now : ℕ)
        → s.probes ≡ suc n
        → Step s (record s { breaker = (on_panic s.breaker true now).0; probes = n })
    plain_result :
        (n now : ℕ) (err : Option E)
        → s.plain ≡ suc n
        → Step s (record s {
          breaker = (record_result is_canceled s.breaker false err now).0;
          plain = n;
        })
    plain_panic :
        (n now : ℕ)
        → s.plain ≡ suc n
        → Step s (record s { breaker = (on_panic s.breaker false now).0; plain = n })

  pub data Reach (s : System) : System → Type 0 where
    here : Reach s s
    next : {t u : System} → Reach s t → Step t u → Reach s u
