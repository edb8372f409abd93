-- ===== src/CircuitBreaker/Ratio/Slots.antt =====
-- How many probes of a `RatioBreaker` are in flight at once.
use go_libs.Common.{◌≤◌, ◌≡◌, ◌⊎◌, Bool, arith, ℤ, pos, ◌≤ℤ◌, Float}
use go_libs.CircuitBreaker.{half_open, Options}
use go_libs.CircuitBreaker.Ratio.{
  new_ratio_breaker, can_execute, record_result, on_panic, evaluate_ratio, decide_ratio, add_record,
}
use go_libs.CircuitBreaker.Ratio.Concurrent.{
  System, enter, start, Step, admission, probe_result, probe_panic, plain_result, plain_panic,
  Reach, here, next,
}

record Single {f : Float} (s : System f) : Type 0 where
  slots : s.breaker.max_half_open ≡ pos 1
  counted : s.breaker.half_open_in_flight ≡ s.probes
  one : s.probes ≤ 1
  probing : (s.breaker.state ≡ half_open) ⊎ (s.probes ≡ 0)

module _ {f : Float} {E : Type 0} (is_canceled : E → Bool) where
  Step-Single : {s t : System f} → Step is_canceled s t → Single s → Single t
  unfolding enter can_execute on_panic record_result evaluate_ratio decide_ratio add_record
  Step-Single (admission now) v = ground arith
  Step-Single (probe_result n now err e) v = ground arith
  Step-Single (probe_panic n now e) v = ground arith
  Step-Single (plain_result n now err e) v = ground arith
  Step-Single (plain_panic n now e) v = ground arith

  Reach-Single : {s t : System f} → Reach is_canceled s t → Single s → Single t
  Reach-Single here v = v
  Reach-Single (next r st) v = Step-Single st (Reach-Single r v)

  -- A breaker made with the default number of half-open probes, or with one, never has two probes
  -- in flight: `halfOpenInFlight` is the number of probes in flight, and while there is one the
  -- breaker is half-open.
  single_ratio_probe :
      (failure_ratio : f.F) (min_requests window reset_timeout : ℤ) (o : Options) {s : System f}
      → o.max_half_open ≤ℤ pos 1
      → Reach is_canceled (start failure_ratio min_requests window reset_timeout o) s
      → (s.breaker.half_open_in_flight ≡ s.probes)
        × (s.probes ≤ 1)
        × ((s.breaker.state ≡ half_open) ⊎ (s.probes ≡ 0))
  unfolding start new_ratio_breaker
  single_ratio_probe p m w t o {s} h r =
      let v : Single {f = f} s = Reach-Single r (ground arith) in (v.counted, v.one, v.probing)
