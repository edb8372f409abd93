-- ===== src/HttpClient/Layers.antt =====
-- How the circuit breaker and the retries of httpclient/roundtripper.go work together.
use go_libs.Common.{
  ℕ, ◌+◌, ◌≡◌, refl, Bool, true, false, none, some, inl, inr, if◌then◌else◌, leb, ℤ, arith,
  Bool-cases,
}
use go_libs.CircuitBreaker.{closed, Request, returns, replies}
use go_libs.CircuitBreaker.Consecutive.{ConsecutiveBreaker, execute}
use go_libs.HttpClient.{
  HttpResponse, ClientError, downstream_error, circuit_open, RequestBody, Turn, ClientOptions,
  execute_retries,
}
use go_libs.HttpClient.Transport.{
  Times, breaker_error, after_breaker, breaker_request, runs, round_trip_breaker,
}

module _ {E : Type 0} (turn : ℕ → Turn E) (wait : ℕ → ℤ) (o : ClientOptions E)
    (is_canceled : ClientError E → Bool) where
  success_clears :
      (cb : ConsecutiveBreaker) (r : Request (ClientError E))
      → cb.state ≡ closed
      → r.ctx_before ≡ none
      → r.outcome ≡ returns none
      → r.ctx_after ≡ none
      → let (cb', reply, notified) = execute is_canceled circuit_open cb r in
        (reply ≡ replies none) × (cb'.failures ≡ 0)
  unfolding execute
  success_clears cb r st before ran after = (ground arith, ground arith)

  failure_counts :
      (cb : ConsecutiveBreaker) (r : Request (ClientError E)) (e : ClientError E)
      → cb.state ≡ closed
      → r.ctx_before ≡ none
      → r.outcome ≡ returns (some e)
      → is_canceled e ≡ false
      → let (cb', reply, notified) = execute is_canceled circuit_open cb r in
        (reply ≡ replies (some e)) × (cb'.failures ≡ cb.failures + 1)
  unfolding execute
  failure_counts cb r e st before ran live = (ground arith, ground arith)

  -- A request that a closed breaker admits counts once, however many attempts it took: the client gets
  -- the response that the attempts ended with, a server error included, and the breaker counts one
  -- failure if the code is 500 or more and clears its failures otherwise, unless the context ended meanwhile.
  pub counts_once :
      (cb : ConsecutiveBreaker) (b : RequestBody E) (t : Times E) (resp : HttpResponse) (n : ℕ)
      → execute_retries turn wait o b ≡ (inl (some resp), n)
      → cb.state ≡ closed
      → t.ctx_before ≡ none
      → t.ctx_after ≡ none
      → is_canceled (downstream_error resp.status_code) ≡ false
      → let (cb', res, calls) = round_trip_breaker turn wait o is_canceled cb b t in
        (res ≡ inl (some resp))
        × (calls ≡ n)
        × (cb'.failures ≡ (if leb 500 resp.status_code then cb.failures + 1 else 0))
  unfolding round_trip_breaker execute breaker_error after_breaker
  counts_once cb b t resp n e st before after live =
      let r = breaker_request turn wait o is_canceled b t in
      let start : r.ctx_before ≡ none = rw before refl in
      let stop : r.ctx_after ≡ none = rw after refl in
      let run : runs cb t ≡ true = ground arith in
      elim (Bool-cases (leb 500 resp.status_code)) [
        | inl f ↦
            let ran : r.outcome ≡ returns (some (downstream_error resp.status_code)) =
              rw (e, breaker_error) (rw f refl) in
            let (p, q) =
              failure_counts cb r (downstream_error resp.status_code) st start ran live in
            rw (run, f) (rw (p, e) (refl, refl, rw e at q))
        | inr f ↦
            let ran : r.outcome ≡ returns none = rw (e, breaker_error) (rw f refl) in
            let (p, q) = success_clears cb r st start ran stop in
            rw (run, f) (rw (p, e) (refl, refl, rw e at q))
      ]
