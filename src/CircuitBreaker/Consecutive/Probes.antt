-- ===== src/CircuitBreaker/Consecutive/Probes.antt =====
-- How many probes are in flight at once.
use go_libs.Common.{ℕ, zero, suc, ◌+◌, ◌≤◌, ◌≡◌, ◌⊎◌, Bool, arith, ℤ, pos, ◌≤ℤ◌, ◌<ℤ◌}
use go_libs.CircuitBreaker.{opened, half_open, Options, sub_time}
use go_libs.CircuitBreaker.Consecutive.{
  new_consecutive_breaker, can_execute, record_result, on_panic,
}
use go_libs.CircuitBreaker.Consecutive.Concurrent.{
  System, enter, start, Step, admission, probe_result, probe_panic, plain_result, plain_panic,
  Reach, here, next,
}

record Single (s : System) : Type 0 where
  slots : s.breaker.max_half_open ≡ pos 1
  counted : s.breaker.half_open_in_flight ≡ s.probes
  one : s.probes ≤ 1
  probing : (s.breaker.state ≡ half_open) ⊎ (s.probes ≡ 0)

module _ {E : Type 0} (is_canceled : E → Bool) where
  Step-Single : {s t : System} → Step is_canceled s t → Single s → Single t
  unfolding enter can_execute on_panic record_result
  Step-Single (admission now) v = ground arith
  Step-Single (probe_result n now err e) v = ground arith
  Step-Single (probe_panic n now e) v = ground arith
  Step-Single (plain_result n now err e) v = ground arith
  Step-Single (plain_panic n now e) v = ground arith

  Reach-Single : {s t : System} → Reach is_canceled s t → Single s → Single t
  Reach-Single here v = v
  Reach-Single (next r st) v = Step-Single st (Reach-Single r v)

  -- A breaker made with the default number of half-open probes, or with one, never has two probes
  -- in flight: `halfOpenInFlight` is the number of probes in flight, and while there is one the
  -- breaker is half-open.
  pub single_probe :
      (max_failures reset_timeout : ℤ) (o : Options) {s : System}
      → o.max_half_open ≤ℤ pos 1
      → Reach is_canceled (start max_failures reset_timeout o) s
      → (s.breaker.half_open_in_flight ≡ s.probes)
        × (s.probes ≤ 1)
        × ((s.breaker.state ≡ half_open) ⊎ (s.probes ≡ 0))
  unfolding start new_consecutive_breaker
  single_probe m t o {s} h r =
      let v : Single s = Reach-Single r (ground arith) in (v.counted, v.one, v.probing)

-- `n` admissions in a row, at the same clock reading.
unfoldable pub admissions : ℕ → ℕ → System → System
admissions zero now s = s
admissions (suc n) now s = admissions n now (enter s (can_execute s.breaker now))

-- A half-open breaker after one more probe.
record Filled (s t : System) (m count : ℕ) : Type 0 where
  state : t.breaker.state ≡ half_open
  slots : t.breaker.max_half_open ≡ pos m
  used : t.breaker.half_open_in_flight ≡ count
  more : t.probes ≡ suc s.probes

module _ (now : ℕ) where
  fill_one :
      (s : System) (m : ℕ)
      → s.breaker.state ≡ half_open
      → s.breaker.max_half_open ≡ pos m
      → suc s.breaker.half_open_in_flight ≤ m
      → Filled s (enter s (can_execute s.breaker now)) m (suc s.breaker.half_open_in_flight)
  unfolding enter can_execute
  fill_one s m st mx h = ground arith

  fill :
      (n : ℕ) (s : System) (m : ℕ)
      → s.breaker.state ≡ half_open
      → s.breaker.max_half_open ≡ pos m
      → s.breaker.half_open_in_flight + n ≤ m
      → (admissions n now s).probes ≡ s.probes + n
  unfolding admissions
  fill zero s m st mx h = omega arith
  fill (suc n) s m st mx h =
      let f = fill_one s m st mx (omega arith) in
      let s' = enter s (can_execute s.breaker now) in
      omega (arith, f.more, fill n s' m f.state f.slots (omega (arith, f.used)))

  wake :
      (s : System) (m : ℕ)
      → s.breaker.state ≡ opened
      → s.breaker.max_half_open ≡ pos (suc m)
      → pos 0 <ℤ s.breaker.reset_timeout
      → s.breaker.reset_timeout <ℤ sub_time now s.breaker.opened_at
      → Filled s (enter s (can_execute s.breaker now)) (suc m) 1
  unfolding enter can_execute
  wake s m st mx ps tm = ground arith

  -- The bound on the probes does not hold for more than one slot. If an open breaker still has
  -- earlier probes in flight when its reset timeout has passed, then it admits as many new
  -- probes as it has slots, and these are in flight on top of the earlier ones.
  pub stale_probes_add :
      (s : System) (m : ℕ)
      → s.breaker.state ≡ opened
      → s.breaker.max_half_open ≡ pos (suc m)
      → pos 0 <ℤ s.breaker.reset_timeout
      → s.breaker.reset_timeout <ℤ sub_time now s.breaker.opened_at
      → (admissions (suc m) now s).probes ≡ s.probes + suc m
  unfolding admissions
  stale_probes_add s m st mx ps tm =
      let f = wake s m st mx ps tm in
      let s' = enter s (can_execute s.breaker now) in
      omega (arith, f.more, fill m s' (suc m) f.state f.slots (omega (arith, f.used)))
