-- ===== src/Examples/Breaker.antt =====
-- circuitbreaker/consecutive.go at concrete inputs. An error is a number, and 0 is the cancellation.
use go_libs.Common.{
  ℕ, ◌+◌, ◌≡◌, ◌≢◌, ◌⊎◌, ◌≤◌, refl, Bool, true, ◌==◌, none, some, [], ◌∷◌, arith, pos, Option,
}
use go_libs.CircuitBreaker.{closed, opened, half_open, Request, returns, no_options}
use go_libs.CircuitBreaker.Consecutive.{
  ConsecutiveBreaker, new_consecutive_breaker, can_execute, record_result, on_panic, state_of,
  execute, init_defaults, transition, decrement_half_open,
}
use go_libs.CircuitBreaker.Consecutive.Concurrent.{
  System, start, enter, Reach, here, next, admission,
}
use go_libs.CircuitBreaker.Consecutive.Probes.{admissions, single_probe, stale_probes_add}
use go_libs.CircuitBreaker.Consecutive.Recovery.{Configured, probe_decides}
use go_libs.CircuitBreaker.Consecutive.Tripping.{run_calls, trips_at_threshold}

abbrev is_canceled : ℕ → Bool
is_canceled e = e == 0

-- Three failures, and a timeout of 100.
abbrev fresh : ConsecutiveBreaker
fresh = record {
  state = closed;
  failures = 0;
  max_failures = pos 3;
  reset_timeout = pos 100;
  opened_at = 0;
  half_open_in_flight = 0;
  max_half_open = pos 1;
  on_state_change = true;
  requests_metric = 0;
  failures_metric = 0;
  state_metric = closed;
}

abbrev tripped : ConsecutiveBreaker
tripped = record fresh { state = opened; failures = 3; opened_at = 50; state_metric = opened }

new_is_fresh :
    new_consecutive_breaker (pos 3) (pos 100) (record no_options { on_state_change = true }) ≡ fresh
unfolding new_consecutive_breaker
new_is_fresh = refl

abbrev call : ℕ → Option ℕ → Request ℕ
call t err = record {
  ctx_before = none;
  started = t;
  outcome = returns err;
  ctx_after = none;
  ended = t + 1;
}

abbrev configured : Configured fresh
configured = omega arith

program : Unit {0}
unfolding can_execute record_result on_panic execute state_of run_calls init_defaults transition
    decrement_half_open
program = tt

three_failures :
    run_calls is_canceled 9 fresh (call 10 (some 7) ∷ call 20 (some 7) ∷ call 49 (some 7) ∷ [])
    ≡ record tripped { requests_metric = 3; failures_metric = 3 }
unfolding program
three_failures = refl

reached : Reach is_canceled (start (pos 3) (pos 100) no_options) (
    enter
      (start (pos 3) (pos 100) no_options)
      (can_execute (start (pos 3) (pos 100) no_options).breaker 5))
reached = next here (admission 5)

single_probe_example :
    let s =
      enter
        (start (pos 3) (pos 100) no_options)
        (can_execute (start (pos 3) (pos 100) no_options).breaker 5) in
    (s.breaker.half_open_in_flight ≡ s.probes)
    × (s.probes ≤ 1)
    × ((s.breaker.state ≡ half_open) ⊎ (s.probes ≡ 0))
single_probe_example = single_probe is_canceled (pos 3) (pos 100) no_options (omega arith) reached

-- Two probe slots. One probe is still in flight when the breaker opens again.
abbrev stale : System
stale = record {
  breaker = record tripped { max_half_open = pos 2; half_open_in_flight = 1 };
  probes = 1;
  plain = 0;
}

stale_probes_add_example : (admissions 2 200 stale).probes ≡ 3
stale_probes_add_example = stale_probes_add 200 stale 1 refl refl (omega arith) (omega arith)

probe_decides_example :
    let c = (execute is_canceled 9 tripped (call 200 none)).0 in
    (c.state ≡ closed)
    × (c.half_open_in_flight ≡ 0)
    × (c.state ≡ closed → c.failures ≡ 0)
    × (c.state ≢ closed → c.failures ≡ 3)
    × (c.state ≡ opened → c.opened_at ≡ 201)
probe_decides_example =
    probe_decides is_canceled 9 tripped (call 200 none) (omega arith) refl (omega arith) refl

trips_at_threshold_example :
    let c = run_calls is_canceled 9 fresh (call 10 (some 7) ∷ call 20 (some 7) ∷ []) in
    let d = (execute is_canceled 9 c (call 49 (some 7))).0 in
    (c.state ≡ closed) × (c.failures ≡ 2) × (d.state ≡ opened) × (d.opened_at ≡ 50)
trips_at_threshold_example =
    trips_at_threshold is_canceled 9 fresh (call 10 (some 7) ∷ call 20 (some 7) ∷ [])
      (call 49 (some 7)) configured refl (ground arith) (ground arith) refl
