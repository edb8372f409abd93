-- ===== src/Examples/Ratio.antt =====
-- circuitbreaker/ratio.go at concrete inputs, with whole numbers for `float64`.
use go_libs.Common.{
  ℕ, ◌≡◌, ◌-ℤ◌, refl, Bool, true, false, ◌==◌, List, [], ◌∷◌, arith, pos, if◌then◌else◌,
}
use go_libs.CircuitBreaker.{closed, opened, no_options}
use go_libs.CircuitBreaker.Ratio.{
  ReqRecord, RatioBreaker, evaluate_ratio, prune, decide_ratio, transition,
}
use go_libs.CircuitBreaker.Ratio.Concurrent.{System, start, enter, Reach, here, next, admission}
use go_libs.CircuitBreaker.Ratio.Window.{
  count_failed, within_window, ratio_reached, evaluate_window,
}
use go_libs.CircuitBreaker.Ratio.{can_execute}
use go_libs.Examples.Windows.{whole}

abbrev is_canceled : ℕ → Bool
is_canceled e = e == 0

-- The ratio of 1: every request of the window has failed.
abbrev fresh : RatioBreaker whole
fresh = record {
  state = closed;
  failure_ratio = 1;
  min_requests = pos 2;
  window = pos 10;
  reset_timeout = pos 100;
  opened_at = 0;
  half_open_in_flight = 0;
  max_half_open = pos 1;
  records = [];
  failure_count = pos 0;
  on_state_change = true;
  requests_metric = 0;
  failures_metric = 0;
  state_metric = closed;
}

abbrev at : ℕ → Bool → ReqRecord
at t bad = record { ts = t; failed = bad }

abbrev busy : RatioBreaker whole
busy = record fresh {
  records = at 3 false ∷ at 5 true ∷ at 18 true ∷ at 20 true ∷ [];
  failure_count = pos 3;
}

busy_trips :
    ((evaluate_ratio busy 21).0.state ≡ opened)
    × ((evaluate_ratio busy 21).0.records ≡ at 18 true ∷ at 20 true ∷ [])
    × ((evaluate_ratio busy 21).0.failure_count ≡ pos 2)
unfolding evaluate_ratio prune decide_ratio transition ◌-ℤ◌
busy_trips = (refl, refl, refl)

evaluate_window_example :
    let kept : List ReqRecord = within_window (pos 21 -ℤ pos 10) busy.records in
    let after : RatioBreaker whole = (evaluate_ratio busy 21).0 in
    (after.records ≡ kept)
    × (after.failure_count ≡ pos (count_failed kept))
    × (after.state ≡ (if ratio_reached busy kept then opened else closed))
unfolding count_failed
evaluate_window_example = evaluate_window busy 21 (omega arith) refl

-- One admission from the constructor on.
one_step :
    Reach {f = whole} is_canceled (start {f = whole} 1 (pos 2) (pos 10) (pos 100) no_options) (
      enter
        (start {f = whole} 1 (pos 2) (pos 10) (pos 100) no_options)
        (can_execute (start {f = whole} 1 (pos 2) (pos 10) (pos 100) no_options).breaker 7))
one_step = next here (admission 7)

abbrev later : System whole
later =
    enter (start {f = whole} 1 (pos 2) (pos 10) (pos 100) no_options)
      (can_execute (start {f = whole} 1 (pos 2) (pos 10) (pos 100) no_options).breaker 7)
