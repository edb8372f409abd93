-- ===== src/Examples/Clients.antt =====
-- httpclient/roundtripper.go at concrete inputs: four attempts per request, and a breaker that opens at two failures.
use go_libs.Common.{
  ℕ, zero, suc, ◌≡◌, ◌≤◌, refl, true, false, Bool, none, some, inl, inr, ℤ, pos, arith, ltb, ◌-◌,
  ◌<◌, if◌then◌else◌,
}
use go_libs.CircuitBreaker.{opened}
use go_libs.CircuitBreaker.Consecutive.{ConsecutiveBreaker, new_consecutive_breaker}
use go_libs.RateLimit.Middleware.{Limiter}
use go_libs.Retry.{constant}
use go_libs.HttpClient.{
  ClientError, circuit_open, rate_limited, RequestBody, Turn, ClientOptions, execute_retries,
  perform_attempt, attempts_for, prepare_request_body, retry_loop, after_attempt,
}
use go_libs.HttpClient.Transport.{
  limiter_func, limiter_key, Times, check_rate_limit, round_trip, round_trip_breaker, inner_trip,
}
use go_libs.HttpClient.Answers.{Retried, answers, attempt_answers}
use go_libs.HttpClient.Requests.{round_trip_bounded, open_breaker_spares}
use go_libs.HttpClient.Layers.{counts_once}

abbrev options : ClientOptions ℕ
options = record {
  retry_cfg = record {
    attempts = pos 4;
    initial_wait = pos 10;
    max_wait = pos 0;
    strategy = constant;
    should_retry = none;
  };
  per_attempt_timeout = pos 100;
}

-- Two server errors, then a success.
abbrev turn : ℕ → Turn ℕ
turn i = record {
  ctx_err = none;
  answer = elim i [ zero ↦ inl 503 | suc j ↦ elim j [ zero ↦ inl 500 | suc k ↦ inl 200 ] ];
  attempt_ended = false;
  ctx_ended = false;
  wait_ended = none;
}

abbrev wait : ℕ → ℤ
wait i = pos 10

abbrev body : RequestBody ℕ
body = record { present = true; rewindable = false; size = 12; read_error = none }

-- The body is small, and can be read again once it has been kept.
abbrev kept : RequestBody ℕ
kept = record { present = true; rewindable = true; size = 12; read_error = none }

abbrev large : RequestBody ℕ
large = record { present = true; rewindable = false; size = 10_485_761; read_error = none }

abbrev times : Times ℕ
times = record { ctx_before = none; started = 5; ctx_after = none; ended = 9 }

abbrev breaker : ConsecutiveBreaker
breaker =
    record (new_consecutive_breaker (pos 2) (pos 1000)
      (record { max_half_open = pos 1; on_state_change = false })) { failures = 1 }

abbrev tripped : ConsecutiveBreaker
tripped = record breaker { state = opened; opened_at = 4 }

-- A limiter that counts what it admits, up to three.
abbrev counting : Limiter ℕ
counting = record {
  allow = λ n key at now. if ltb n 3 then (suc n, true) else (n, false);
  remaining = λ n key at now. (n, pos (3 - n));
}

abbrev canceled : ClientError ℕ → Bool
canceled e = false

-- The third attempt answers a request whose body can be kept; one whose body is too large gets the first answer.
kept_and_large :
    ((round_trip turn wait options canceled counting 0 (limiter_key "host") 1 2 none body times).2
      ≡ inl (some (record { status_code = 200 })))
    × ((round_trip turn wait options canceled counting 0 (limiter_key "host") 1 2 none body times).3
        ≡ 3)
    × ((round_trip turn wait options canceled counting 0
          (limiter_key "host")
          1
          2
          none
          large
          times).2
        ≡ inl (some (record { status_code = 503 })))
    × ((round_trip turn wait options canceled counting 3 (limiter_key "host") 1 2 none body times).2
        ≡ inr (some rate_limited))
unfolding round_trip prepare_request_body check_rate_limit inner_trip execute_retries attempts_for
    retry_loop after_attempt perform_attempt
kept_and_large = (refl, refl, refl, refl)

retried : (i : ℕ) → i < 2 → Retried turn wait options i
unfolding perform_attempt
retried zero h = record { live = refl; failed = refl; again = refl; waited = refl }
retried (suc zero) h = record { live = refl; failed = refl; again = refl; waited = refl }
retried (suc (suc i)) h = absurd (omega (arith, h))

attempt_answers_example :
    execute_retries turn wait options kept ≡ (inl (some (record { status_code = 200 })), 3)
unfolding attempts_for perform_attempt
attempt_answers_example =
    attempt_answers turn wait options kept 2 1 (inl (some (record { status_code = 200 }))) refl
      retried refl (answers 200 refl refl)

round_trip_bounded_example :
    (round_trip turn wait options canceled counting 0
      (limiter_key "host")
      1
      2
      (some breaker)
      body
      times).3
    ≤ 4
unfolding check_rate_limit
round_trip_bounded_example =
    round_trip_bounded turn wait options canceled counting 0 (limiter_key "host") 1 2 (some breaker)
      body times

open_breaker_spares_example :
    round_trip turn wait options canceled counting 0
      (limiter_func true)
      1
      2
      (some tripped)
      body
      times
    ≡ (0, some tripped, inr (some circuit_open), 0)
unfolding prepare_request_body check_rate_limit new_consecutive_breaker
open_breaker_spares_example =
    open_breaker_spares turn wait options canceled counting 0 (limiter_func true) 1 2 tripped body
      kept times refl refl
      (record { threshold = omega arith; timeout = omega arith; slots = omega arith }) refl
      (omega arith) refl

counts_once_example :
    let failing : ℕ → Turn ℕ = λ i. turn 0 in
    let (cb', res, calls) = round_trip_breaker failing wait options canceled breaker kept times in
    (res ≡ inl (some (record { status_code = 503 }))) × (calls ≡ 4) × (cb'.failures ≡ 2)
unfolding execute_retries attempts_for retry_loop after_attempt perform_attempt
    new_consecutive_breaker
counts_once_example =
    counts_once (λ i. turn 0) wait options canceled breaker kept times
      (record { status_code = 503 }) 4 refl refl refl refl refl
