-- ===== src/RateLimit/Middleware/Admission.antt =====
-- How many requests of one client get through the middleware.
use go_libs.Common.{
  ℕ, ◌+◌, ◌-◌, ◌*◌, ◌≤◌, ◌<◌, ◌≡◌, refl, sym, subst, Bool, true, false, some, String, List, [], ◌∷◌,
  none, ℤ, pos, arith, All, map, lookup, string_discrete, lookup-insert_self, inl, inr, Bool-cases,
}
use go_libs.RateLimit.TokenBucket.{
  Bucket, TokenBucketLimiter, new_token_bucket, allow, allow_n, remaining, get_bucket, five_minutes,
}
use go_libs.RateLimit.TokenBucket.Budget.{Call, Ordered, granted}
use go_libs.RateLimit.TokenBucket.Sharing
use go_libs.RateLimit.TokenBucket.Sharing.{KeyCall, Settled, Early, granted_to, run_key_calls}
use go_libs.RateLimit.TokenBucket.Sharing.NewKeys.{Asks, granted_to_new}
use go_libs.RateLimit.RealIp.{NetLib, HttpRequest, real_ip}
use go_libs.RateLimit.Middleware.{Readings, MiddlewareConfig, make_limiter, serve}

-- A request with the clock readings it takes.
pub record Visit : Type 0 where
  pub request : HttpRequest
  pub times : Readings

abbrev pub call_of : Visit → Call
call_of v = record { count = pos 1; opened = v.times.opened; now = v.times.taken }

abbrev pub count_passed : Bool → ℕ
count_passed true = 1
count_passed false = 0

-- The two readings of `Allow` are in order, from `start` on, and the first comes within five minutes, before a
-- collection is due.
abbrev pub Timely : ℕ → Visit → Type 0
Timely start v =
    (start ≤ v.times.opened)
    × (v.times.opened ≤ v.times.taken)
    × (v.times.opened < start + five_minutes)

module _ (bytes : String → List ℕ) (itoa : ℤ → String) {Ip Net : Type 0} (lib : NetLib Ip Net)
    (cfg : MiddlewareConfig Net) where
  abbrev address : Visit → String
  address v = real_ip lib (some v.request) cfg.trusted_proxies

  -- Requests one after another: the limiter, and how many from the address `ip` got through.
  unfoldable pub serve_all : TokenBucketLimiter → String → List Visit → TokenBucketLimiter × ℕ
  serve_all l ip [] = (l, 0)
  serve_all l ip (v ∷ vs) =
      let d = serve bytes itoa lib cfg l v.request v.times in
      let (l', rest) = serve_all d.limiter ip vs in
      (l', granted_to ip (address v) (count_passed d.passed) + rest)

  abbrev key_call : Visit → KeyCall
  key_call v = record { key = address v; call = call_of v }

  remaining_same :
      (l : TokenBucketLimiter) (key : String) (b : Bucket) (opened now : ℕ)
      → lookup string_discrete key l.buckets ≡ some b
      → (remaining l key opened now).0 ≡ l
  unfolding remaining get_bucket
  remaining_same l key b opened now e = rw (e, remaining, get_bucket) refl

  allow_n-held :
      (l : TokenBucketLimiter) (key : String) (opened now : ℕ)
      → (c : Bucket) × (lookup string_discrete key (allow_n l key (pos 1) opened now).0.buckets
          ≡ some c)
  unfolding allow_n
  allow_n-held l key opened now = (_, lookup-insert_self string_discrete key _ _)

  serve-allow_n :
      (l : TokenBucketLimiter) (v : Visit)
      → let d = serve bytes itoa lib cfg l v.request v.times in
        let (l', ok) = allow_n l (address v) (pos 1) v.times.opened v.times.taken in
        (d.limiter ≡ l') × (d.passed ≡ ok)
  unfolding serve allow
  serve-allow_n l v =
      let (c, held) = allow_n-held l (address v) v.times.opened v.times.taken in
      let same = remaining_same _ (address v) c v.times.reopened v.times.shown held in
      elim (Bool-cases (allow_n l (address v) (pos 1) v.times.opened v.times.taken).1) [
        | inl ok ↦ rw ok (same, refl)
        | inr full ↦ rw full (refl, refl)
      ]

  passed-granted : (ok : Bool) → count_passed ok ≡ granted 1 ok
  passed-granted true = refl
  passed-granted false = refl

  serve_all-run_key_calls :
      (l : TokenBucketLimiter) (ip : String) (vs : List Visit)
      → (serve_all l ip vs).1 ≡ (run_key_calls l ip (map key_call vs)).1
  unfolding serve_all run_key_calls
  serve_all-run_key_calls l ip [] = refl
  serve_all-run_key_calls l ip (v ∷ vs) =
      let (same, ok) = serve-allow_n l v in
      let (l', passed) = allow_n l (address v) (pos 1) v.times.opened v.times.taken in
      rw (same, ok, serve_all-run_key_calls l' ip vs, passed-granted passed) refl

  -- A new limiter of the middleware has its settings, and no bucket.
  record Made (l : TokenBucketLimiter) (start : ℕ) : Type 0 where
    settled : Settled l
    empty : l.buckets ≡ []
    due : l.last_gc + l.gc_interval ≡ start + five_minutes

  make_limiter-Made : (start : ℕ) → 0 < start → Made (make_limiter cfg start) start
  unfolding make_limiter new_token_bucket
  make_limiter-Made start h = record {
    settled = record {
      capacity = ground arith;
      rate = ground arith;
      interval = omega arith;
      timeout = omega arith;
      collected = h;
    };
    empty = refl;
    due = refl;
  }

  Early-Timely :
      (l : TokenBucketLimiter) (start : ℕ) (vs : List Visit)
      → l.last_gc + l.gc_interval ≡ start + five_minutes
      → All (Timely start) vs
      → All (Early l) (map key_call vs)
  Early-Timely l start [] due t = tt
  Early-Timely l start (v ∷ vs) due ((since, order, before), t) =
      (omega (arith, due, before), Early-Timely l start vs due t)

  Asks-Timely :
      (start : ℕ) (vs : List Visit) → All (Timely start) vs → All (Asks start) (map key_call vs)
  Asks-Timely start [] t = tt
  Asks-Timely start (v ∷ vs) ((since, order, before), t) =
      ((refl, since, order), Asks-Timely start vs t)

  calls_same : (vs : List Visit) → map Sharing.call_of (map key_call vs) ≡ map call_of vs
  calls_same [] = refl
  calls_same (v ∷ vs) = rw (calls_same vs) refl

  absent :
      (l : TokenBucketLimiter) (ip : String)
      → l.buckets ≡ []
      → lookup string_discrete ip l.buckets ≡ none
  unfolding lookup
  absent l ip e = rw e refl

  -- In the five minutes after the middleware is made, whoever else sends requests, no more requests from one address get
  -- through up to the time `end` than its capacity and the refills since the start allow, if the clock is past zero
  -- at the start and does not go back: counted in refill periods, their number is worth at most a full bucket and
  -- the time from the start to `end`. An address is what the middleware takes to be that of the request.
  pub admitted_bound :
      (start end : ℕ) (ip : String) (vs : List Visit)
      → 0 < start
      → All (Timely start) vs
      → Ordered start (map call_of vs) end
      → let l : TokenBucketLimiter = make_limiter cfg start in
        (serve_all l ip vs).1 * l.refill_rate ≤ l.capacity * l.refill_rate + (end - start)
  admitted_bound start end ip vs h timely order =
      let l : TokenBucketLimiter = make_limiter cfg start in
      let made = make_limiter-Made start h in
      let o = subst (λ cs. Ordered start cs end) (sym (calls_same vs)) order in
      rw (serve_all-run_key_calls l ip vs) (
        granted_to_new l ip (map key_call vs) start end made.settled (absent l ip made.empty) o
          (Early-Timely l start vs made.due timely) (Asks-Timely start vs timely))
