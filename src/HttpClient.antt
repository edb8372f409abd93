-- ===== src/HttpClient.antt =====
-- httpclient/roundtripper.go: the transport with rate limit, circuit breaker and retries. What the wrapped
-- transport, the contexts and the clock do in each attempt is a parameter. The metrics, the tracer and
-- the span stay out, and so do what `Clone` and `GetBody` give the attempt and the cancelling of its context when it
-- returns. A total timeout is one way in which the context of the request ends.
pub mod Answers
pub mod Attempts
pub mod Transport
pub mod Layers
pub mod Requests
use go_libs.Common.{
  ℕ, zero, suc, ◌+◌, ◌-◌, ◌^◌, ◌==◌, min, Bool, true, false, ◌&&◌, ◌||◌, not, Option, none, some,
  ◌⊎◌, inl, inr, String, List, [], ◌∷◌, if◌then◌else◌, ltb, leb, ℤ, pos, leb_ℤ, ltb_ℤ, to_ℕ,
  default_ℤ, Float,
}
use go_libs.Common.{wrap, ◌*ℤ◌}
use go_libs.Retry.{Config, Strategy, constant, linear, exponential, exponential_jitter}

pub record HttpResponse : Type 0 where
  pub status_code : ℕ

-- An error of the wrapped transport or of a context is `other`.
pub data ClientError (E : Type 0) : Type 0 where
  other : E → ClientError E
  attempt_timeout : ClientError E
  server_error : ℕ → ClientError E
  downstream_error : ℕ → ClientError E
  circuit_open : ClientError E
  rate_limited : ClientError E

-- The body of a request: `present` if it is neither nil nor NoBody, `rewindable` if there is a `GetBody`.
pub record RequestBody (E : Type 0) : Type 0 where
  pub present : Bool
  pub rewindable : Bool
  pub size : ℕ
  pub read_error : Option E

-- One turn of the loop: `ctx.Err()` before it, what the wrapped transport gives, whether the attempt's
-- context and the caller's have ended after it, and `ctx.Err()` if the context ends before the timer.
pub record Turn (E : Type 0) : Type 0 where
  pub ctx_err : Option E
  pub answer : ℕ ⊎ E
  pub attempt_ended : Bool
  pub ctx_ended : Bool
  pub wait_ended : Option E

pub record ClientOptions (E : Type 0) : Type 0 where
  pub retry_cfg : Config (ClientError E)
  pub per_attempt_timeout : ℤ

abbrev pub max_body : ℕ
max_body = 10_485_760

-- `convert` is Go's conversion of a `float64` to a duration.
unfoldable pub raw_retry_wait : (f : Float) → (f.F → ℤ) → f.F → Strategy → ℤ → ℕ → ℤ
raw_retry_wait f convert random constant initial attempt = initial
raw_retry_wait f convert random linear initial attempt = wrap (initial *ℤ pos (suc attempt))
raw_retry_wait f convert random exponential initial attempt =
    convert (f.mul (f.of_int initial) (f.of_nat (2 ^ min attempt 30)))
raw_retry_wait f convert random exponential_jitter initial attempt =
    let max_wait = f.mul (f.of_int initial) (f.of_nat (2 ^ min attempt 30)) in
    if f.leb max_wait (f.of_nat 0) then pos 0 else convert (f.mul random max_wait)

unfoldable pub compute_retry_wait : (f : Float) → (f.F → ℤ) → f.F → {E : Type 0} → Config E → ℕ → ℤ
compute_retry_wait f convert random cfg attempt =
    let wait = raw_retry_wait f convert random cfg.strategy cfg.initial_wait attempt in
    if leb_ℤ cfg.initial_wait (pos 0)
    then pos 0
    else if ltb_ℤ (pos 0) cfg.max_wait && ltb_ℤ cfg.max_wait wait
    then cfg.max_wait
    else wait

module _ {E : Type 0} where
  unfoldable pub prepare_request_body : RequestBody E → RequestBody E ⊎ ClientError E
  prepare_request_body b = if not b.present || b.rewindable then inl b else elim b.read_error [
    | some e ↦ inr (other e)
    | none ↦ inl (if ltb max_body b.size then b else record b { rewindable = true })
  ]

  -- The response, whether the attempt is to be retried, and the error. Without a timeout per attempt its context is the
  -- request's.
  unfoldable pub perform_attempt :
      ClientOptions E → Turn E → Option HttpResponse × Bool × Option (ClientError E)
  perform_attempt o t = elim t.answer [
    | inr e ↦
        let ended = if ltb_ℤ (pos 0) o.per_attempt_timeout then t.attempt_ended else t.ctx_ended in
        (none, true, some (if ended && not t.ctx_ended then attempt_timeout else other e))
    | inl code ↦
        let resp : HttpResponse = record { status_code = code } in
        if leb 500 code
        then (some resp, true, some (server_error code))
        else (some resp, false, none)
  ]

  -- The end of `executeRetries`: the last response, or else the last error.
  abbrev pub last_result :
      Option HttpResponse → Option (ClientError E) → Option HttpResponse ⊎ Option (ClientError E)
  last_result (some resp) err = inl (some resp)
  last_result none err = inr err

  -- `ShouldRetry != nil && !ShouldRetry(lastErr)`.
  abbrev pub refuses : ClientOptions E → Option (ClientError E) → Bool
  refuses o err = elim o.retry_cfg.should_retry [
    | none ↦ false
    | some test ↦ elim err [ none ↦ false | some e ↦ not (test e) ]
  ]

  -- The number of attempts that a request may take.
  unfoldable pub attempts_for : ClientOptions E → RequestBody E → ℕ
  attempts_for o b =
      if b.present && not b.rewindable then 1 else to_ℕ (default_ℤ o.retry_cfg.attempts (pos 1))

  module _ (turn : ℕ → Turn E) (wait : ℕ → ℤ) (o : ClientOptions E) where
    -- The rest of a turn after an attempt that may be retried; `rest` is what the later turns give.
    unfoldable pub after_attempt :
        (attempts attempt : ℕ)
        → Option HttpResponse
        → Option (ClientError E)
        → (Option HttpResponse ⊎ Option (ClientError E)) × ℕ
        → (Option HttpResponse ⊎ Option (ClientError E)) × ℕ
    after_attempt attempts attempt resp err rest =
        if refuses o err
        then (last_result resp err, suc attempt)
        else if suc attempt == attempts
        then (last_result resp err, suc attempt)
        else if leb_ℤ (wait attempt) (pos 0)
        then rest
        else elim (turn attempt).wait_ended [
          | some e ↦ (inr (some (other e)), suc attempt)
          | none ↦ rest
        ]

    -- The loop from `attempt` on, with `left` turns left; the second part is the number of attempts made.
    unfoldable pub retry_loop :
        (attempts left attempt : ℕ) → (Option HttpResponse ⊎ Option (ClientError E)) × ℕ
    retry_loop attempts zero attempt = (inr none, attempt)
    retry_loop attempts (suc left) attempt =
        let rest = retry_loop attempts left (suc attempt) in
        let (resp, retryable, err) = perform_attempt o (turn attempt) in
        elim (turn attempt).ctx_err [
          | some e ↦ (inr (some (other e)), attempt)
          | none ↦
              if not retryable
              then (inl resp, suc attempt)
              else after_attempt attempts attempt resp err rest
        ]

    unfoldable pub execute_retries :
        RequestBody E → (Option HttpResponse ⊎ Option (ClientError E)) × ℕ
    execute_retries b = let n = attempts_for o b in retry_loop n n 0
