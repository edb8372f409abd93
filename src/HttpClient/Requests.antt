-- ===== src/HttpClient/Requests.antt =====
-- What `RoundTrip` of httpclient/roundtripper.go does with a request: the attempts that it takes, when it takes
-- none, and the response that it gives.
use go_libs.Common.{
  ℕ, ◌≡◌, ◌≤◌, refl, sym, ◌∙◌, subst, Bool, true, false, not, ◌&&◌, Option, none, some, ◌⊎◌, inl,
  inr, ltb, if◌then◌else◌, ℤ, pos, to_ℕ, default_ℤ, ◌≤ℤ◌, arith, Bool-cases,
}
use go_libs.CircuitBreaker.{opened, sub_time}
use go_libs.CircuitBreaker.Consecutive.{ConsecutiveBreaker, can_execute}
use go_libs.CircuitBreaker.Consecutive.Recovery.{Configured, open_rejects}
use go_libs.RateLimit.Middleware.{Limiter}
use go_libs.HttpClient.{
  HttpResponse, ClientError, circuit_open, rate_limited, max_body, RequestBody, Turn, ClientOptions,
  prepare_request_body, attempts_for, execute_retries,
}
use go_libs.HttpClient.Transport.{
  RateLayer, Times, after_breaker, breaker_request, runs, round_trip_breaker, inner_trip,
  check_rate_limit, round_trip,
}
use go_libs.HttpClient.Attempts.{retry_loop-le}

-- The attempts that the options allow a request: one, if its body can be read only once and is too large to keep.
abbrev pub allowance : {E : Type 0} → ClientOptions E → RequestBody E → ℕ
allowance o b =
    if b.present && not b.rewindable && ltb max_body b.size
    then 1
    else to_ℕ (default_ℤ o.retry_cfg.attempts (pos 1))

prepared-cases :
    {E : Type 0} (body : RequestBody E)
    → ((b : RequestBody E) × (prepare_request_body body ≡ inl b))
      ⊎ ((e : ClientError E) × (prepare_request_body body ≡ inr e))
prepared-cases body =
    elim (prepare_request_body body) as (λ x. ((b : _) × (x ≡ inl b)) ⊎ ((e : _) × (x ≡ inr e))) [
      | inl b ↦ inl (b, refl)
      | inr e ↦ inr (e, refl)
    ]

module _ {E : Type 0} (turn : ℕ → Turn E) (wait : ℕ → ℤ) (o : ClientOptions E)
    (is_canceled : ClientError E → Bool) where
  execute_retries-le : (b : RequestBody E) → (execute_retries turn wait o b).1 ≤ attempts_for o b
  unfolding execute_retries
  execute_retries-le b = let n = attempts_for o b in omega (arith, retry_loop-le turn wait o n n 0)

  inner_trip-le :
      (cb : Option ConsecutiveBreaker) (b : RequestBody E) (t : Times E)
      → (inner_trip turn wait o is_canceled cb b t).2 ≤ attempts_for o b
  unfolding inner_trip round_trip_breaker
  inner_trip-le none b t = execute_retries-le b
  inner_trip-le (some cb) b t = elim (Bool-cases (runs cb t)) [
    | inl e ↦ rw e (execute_retries-le b)
    | inr e ↦ rw e (omega arith)
  ]

  prepared_allowance :
      (body b : RequestBody E)
      → prepare_request_body body ≡ inl b
      → attempts_for o b ≡ allowance o body
  unfolding prepare_request_body attempts_for
  prepared_allowance body b h = ground (arith, h)

  module _ {S : Type 0} (lim : Limiter S) (l : S) (layer : RateLayer) (asked now : ℕ) where
    trip_unread :
        (cb : Option ConsecutiveBreaker) (body : RequestBody E) (t : Times E) (e : ClientError E)
        → prepare_request_body body ≡ inr e
        → round_trip turn wait o is_canceled lim l layer asked now cb body t
          ≡ (l, cb, inr (some e), 0)
    unfolding round_trip
    trip_unread cb body t e p = rw (p, round_trip) refl

    trip_refused :
        (cb : Option ConsecutiveBreaker) (body b : RequestBody E) (t : Times E)
        → prepare_request_body body ≡ inl b
        → (check_rate_limit lim l layer asked now).1 ≡ false
        → round_trip turn wait o is_canceled lim l layer asked now cb body t
          ≡ ((check_rate_limit lim l layer asked now).0, cb, inr (some rate_limited), 0)
    unfolding round_trip
    trip_refused cb body b t p f = rw (p, round_trip) (rw f refl)

    trip_passed :
        (cb : Option ConsecutiveBreaker) (body b : RequestBody E) (t : Times E)
        → prepare_request_body body ≡ inl b
        → (check_rate_limit lim l layer asked now).1 ≡ true
        → let (cb', res, calls) = inner_trip turn wait o is_canceled cb b t in
          round_trip turn wait o is_canceled lim l layer asked now cb body t
          ≡ ((check_rate_limit lim l layer asked now).0, cb', res, calls)
    unfolding round_trip
    trip_passed cb body b t p f = rw (p, round_trip) (rw f refl)

    -- A property of what a request gives holds if it holds of each way in which the request can end.
    trip_elim :
        (cb : Option ConsecutiveBreaker) (body : RequestBody E) (t : Times E)
        (P : S × Option ConsecutiveBreaker × (Option HttpResponse ⊎ Option (ClientError E)) × ℕ
          → Type 0)
        → ((e : ClientError E) → P (l, cb, inr (some e), 0))
        → ((l' : S) → P (l', cb, inr (some rate_limited), 0))
        → ((l' : S) (b : RequestBody E)
            → (check_rate_limit lim l layer asked now).1 ≡ true
            → prepare_request_body body ≡ inl b
            → let (cb', res, calls) = inner_trip turn wait o is_canceled cb b t in
              P (l', cb', res, calls))
        → P (round_trip turn wait o is_canceled lim l layer asked now cb body t)
    trip_elim cb body t P unread refused passed = elim (prepared-cases body) [
      | inr (e, p) ↦ subst P (sym (trip_unread cb body t e p)) (unread e)
      | inl (b, p) ↦ elim (Bool-cases (check_rate_limit lim l layer asked now).1) [
        | inl f ↦
            subst P (sym (trip_passed cb body b t p f))
              (passed (check_rate_limit lim l layer asked now).0 b f p)
        | inr f ↦
            subst P (sym (trip_refused cb body b t p f))
              (refused (check_rate_limit lim l layer asked now).0)
      ]
    ]

    -- A request takes at most the attempts that the options allow it, and none if the rate limiter refuses it,
    -- whatever the wrapped transport, the contexts and the breaker do.
    pub round_trip_bounded :
        (cb : Option ConsecutiveBreaker) (body : RequestBody E) (t : Times E)
        → (round_trip turn wait o is_canceled lim l layer asked now cb body t).3
          ≤ (if (check_rate_limit lim l layer asked now).1 then allowance o body else 0)
    round_trip_bounded cb body t =
        trip_elim cb body t
          (λ r. r.3 ≤ (if (check_rate_limit lim l layer asked now).1 then allowance o body else 0))
          (λ e. omega arith) (λ l'. omega arith)
          (λ l' b f p. rw f (
            subst (λ n. (inner_trip turn wait o is_canceled cb b t).2 ≤ n)
              (prepared_allowance body b p) (inner_trip-le cb b t)))

    -- While a configured breaker is open and its reset timeout has not passed, a request that gets to it fails with
    -- `ErrCircuitOpen` without an attempt, and the breaker stays as it is.
    pub open_breaker_spares :
        (cb : ConsecutiveBreaker) (body b : RequestBody E) (t : Times E)
        → prepare_request_body body ≡ inl b
        → (check_rate_limit lim l layer asked now).1 ≡ true
        → Configured cb
        → cb.state ≡ opened
        → sub_time t.started cb.opened_at ≤ℤ cb.reset_timeout
        → t.ctx_before ≡ none
        → round_trip turn wait o is_canceled lim l layer asked now (some cb) body t
          ≡ ((check_rate_limit lim l layer asked now).0, some cb, inr (some circuit_open), 0)
    unfolding inner_trip round_trip_breaker after_breaker can_execute
    open_breaker_spares cb body b t p ok v st tm ctx =
        let r = breaker_request turn wait o is_canceled b t in
        let none_before : r.ctx_before ≡ none = rw ctx refl in
        let rej = open_rejects is_canceled circuit_open cb r v st tm none_before in
        let stays : runs cb t ≡ false = ground arith in
        trip_passed (some cb) body b t p ok ∙ rw stays (rw rej refl)
