-- ===== src/HttpClient/Transport.antt =====
-- httpclient/roundtripper.go: the layers of `RoundTrip` around the attempts.
use go_libs.Common.{
  ℕ, Bool, true, false, not, Option, none, some, ◌⊎◌, inl, inr, String, if◌then◌else◌, leb, ℤ,
}
use go_libs.CircuitBreaker.{Request, returns, Reply, replies, repanics}
use go_libs.CircuitBreaker.Consecutive.{ConsecutiveBreaker, can_execute, execute}
use go_libs.RateLimit.Middleware.{Limiter}
use go_libs.HttpClient.{
  HttpResponse, ClientError, other, downstream_error, circuit_open, rate_limited, RequestBody, Turn,
  ClientOptions, prepare_request_body, execute_retries,
}

-- The rate limiter that the options configure: none, a predicate with its verdict on the request, or a limiter
-- with the key of the request.
pub data RateLayer : Type 0 where
  no_limiter : RateLayer
  limiter_func : Bool → RateLayer
  limiter_key : String → RateLayer

-- `ctx.Err()` before the breaker admits the request and after it, and the breaker's clock readings.
pub record Times (E : Type 0) : Type 0 where
  pub ctx_before : Option E
  pub started : ℕ
  pub ctx_after : Option E
  pub ended : ℕ

-- `checkRateLimit`: the limiter, and whether the request may pass.
unfoldable pub check_rate_limit :
    {S : Type 0} → Limiter S → S → RateLayer → (opened now : ℕ) → S × Bool
check_rate_limit lim l no_limiter opened now = (l, true)
check_rate_limit lim l (limiter_func ok) opened now = (l, ok)
check_rate_limit lim l (limiter_key key) opened now = lim.allow l key opened now

module _ {E : Type 0} where
  -- The error that the function under the breaker returns.
  unfoldable pub breaker_error :
      Option HttpResponse ⊎ Option (ClientError E) → Option (ClientError E)
  breaker_error (inr err) = err
  breaker_error (inl none) = none
  breaker_error (inl (some resp)) =
      if leb 500 resp.status_code then some (downstream_error resp.status_code) else none

  abbrev pub response_of : Option HttpResponse ⊎ Option (ClientError E) → Option HttpResponse
  response_of (inl resp) = resp
  response_of (inr err) = none

  abbrev pub lift_error : Option E → Option (ClientError E)
  lift_error none = none
  lift_error (some e) = some (other e)

  -- What `roundTripCircuitBreaker` makes of the breaker's reply and of the response, if the function ran.
  unfoldable pub after_breaker :
      Reply (ClientError E) → Option HttpResponse → Option HttpResponse ⊎ Option (ClientError E)
  after_breaker repanics resp = inr none
  after_breaker (replies none) resp = inl resp
  after_breaker (replies (some circuit_open)) resp = inr (some circuit_open)
  after_breaker (replies (some e)) none = inr (some e)
  after_breaker (replies (some e)) (some resp) = inl (some resp)

  -- Whether the breaker runs the function.
  abbrev pub runs : ConsecutiveBreaker → Times E → Bool
  runs cb t = elim t.ctx_before [ some e ↦ false | none ↦ (can_execute cb t.started).1 ]

  module _ (turn : ℕ → Turn E) (wait : ℕ → ℤ) (o : ClientOptions E)
      (is_canceled : ClientError E → Bool) where
    -- The request as the breaker sees it.
    abbrev pub breaker_request : RequestBody E → Times E → Request (ClientError E)
    breaker_request b t = record {
      ctx_before = lift_error t.ctx_before;
      started = t.started;
      outcome = returns (breaker_error (execute_retries turn wait o b).0);
      ctx_after = lift_error t.ctx_after;
      ended = t.ended;
    }

    -- The breaker, the result, and the number of attempts made.
    unfoldable pub round_trip_breaker :
        ConsecutiveBreaker
        → RequestBody E
        → Times E
        → ConsecutiveBreaker × (Option HttpResponse ⊎ Option (ClientError E)) × ℕ
    round_trip_breaker cb b t =
        let (res, calls) = execute_retries turn wait o b in
        let (cb', reply, changes) = execute is_canceled circuit_open cb (breaker_request b t) in
        if runs cb t
        then (cb', after_breaker reply (response_of res), calls)
        else (cb', after_breaker reply none, 0)

    -- From the breaker on; without one it is `none`.
    unfoldable pub inner_trip :
        Option ConsecutiveBreaker
        → RequestBody E
        → Times E
        → Option ConsecutiveBreaker × (Option HttpResponse ⊎ Option (ClientError E)) × ℕ
    inner_trip none b t = let (res, calls) = execute_retries turn wait o b in (none, res, calls)
    inner_trip (some cb) b t =
        let (cb', res, calls) = round_trip_breaker cb b t in (some cb', res, calls)

    -- `RoundTrip`, with the readings of the rate limiter: the limiter, the breaker, the result, and the number
    -- of attempts made.
    unfoldable pub round_trip :
        {S : Type 0}
        → Limiter S
        → S
        → RateLayer
        → (opened now : ℕ) → Option ConsecutiveBreaker
        → RequestBody E
        → Times E
        → S × Option ConsecutiveBreaker × (Option HttpResponse ⊎ Option (ClientError E)) × ℕ
    round_trip lim l layer opened now cb body t = elim (prepare_request_body body) [
      | inr e ↦ (l, cb, inr (some e), 0)
      | inl b ↦
          let (l', ok) = check_rate_limit lim l layer opened now in
          let (cb', res, calls) = inner_trip cb b t in
          if not ok then (l', cb, inr (some rate_limited), 0) else (l', cb', res, calls)
    ]
