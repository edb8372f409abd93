-- ===== src/RateLimit/Middleware.antt =====
-- ratelimit/ratelimit.go and ratelimit/limiter.go: the HTTP middleware. `bytes` is the conversion of a string
-- to bytes and `itoa` prints an integer in decimal (strconv.Itoa and strconv.FormatInt). The metrics stay out.
pub mod Admission
use go_libs.Common.{
  ℕ, ◌+◌, ◌/◌, Bool, true, false, not, Option, none, some, String, List, [], ◌∷◌, ◌++◌,
  if◌then◌else◌, ℤ, pos, default_ℤ, to_ℕ, div_ℤ,
}
use go_libs.Http.{Write, set_header, write_header, write_body}
use go_libs.RateLimit.TokenBucket.{TokenBucketLimiter, new_token_bucket, allow, remaining, second}
use go_libs.RateLimit.RealIp.{NetLib, HttpRequest, real_ip, parse_trusted_proxies}

abbrev pub minute : ℕ
minute = 60_000_000_000

-- The clock readings of one request, in order: two of `Allow`, and then either two of `Remaining` or the one
-- of the refusal.
pub record Readings : Type 0 where
  pub opened : ℕ
  pub taken : ℕ
  pub reopened : ℕ
  pub shown : ℕ
  pub refused : ℕ

-- What one request leads to: the limiter, whether the wrapped handler runs, and the calls on the writer
-- before that.
pub record Verdict (S : Type 0) : Type 0 where
  pub limiter : S
  pub passed : Bool
  pub out : List Write

-- The two methods of `Limiter` that the middleware calls.
pub record Limiter (S : Type 0) : Type 0 where
  pub allow : S → String → (opened now : ℕ) → S × Bool
  pub remaining : S → String → (opened now : ℕ) → S × ℤ

-- The options that `New` reads.
pub record MiddlewareConfig (Net : Type 0) : Type 0 where
  pub capacity : ℤ
  pub window : ℤ
  pub trusted_proxies : List (Option Net)

-- The defaults of `New`, and the limiter that it makes.
unfoldable pub configure : {Net : Type 0} → ℤ → ℤ → List (Option Net) → MiddlewareConfig Net
configure capacity window nets = record {
  capacity = default_ℤ capacity (pos 1);
  window = default_ℤ window (pos minute);
  trusted_proxies = nets;
}

unfoldable pub rate_of : {Net : Type 0} → MiddlewareConfig Net → ℤ
rate_of cfg = default_ℤ (div_ℤ cfg.window (to_ℕ cfg.capacity)) (pos 1)

unfoldable pub make_limiter : {Net : Type 0} → MiddlewareConfig Net → ℕ → TokenBucketLimiter
make_limiter cfg now = new_token_bucket cfg.capacity (rate_of cfg) now

module _ (bytes : String → List ℕ) (itoa : ℤ → String) where
  abbrev refusal : List Write
  refusal =
      set_header "Content-Type" "application/json"
      ∷ write_header 429
      ∷ write_body (bytes "{\"error\":\"too many requests\",\"code\":\"RATE_LIMITED\"}")
      ∷ []

  -- The handler of `New`.
  unfoldable pub serve :
      {Ip Net : Type 0}
      → NetLib Ip Net
      → MiddlewareConfig Net
      → TokenBucketLimiter
      → HttpRequest
      → Readings
      → Verdict TokenBucketLimiter
  serve lib cfg limiter r t =
      let ip = real_ip lib (some r) cfg.trusted_proxies in
      let (l, ok) = allow limiter ip t.opened t.taken in
      let (l', left) = remaining l ip t.reopened t.shown in
      if not ok
      then record {
        limiter = l;
        passed = false;
        out =
            set_header "RateLimit-Limit" (itoa cfg.capacity)
            ∷ set_header "RateLimit-Remaining" "0"
            ∷ set_header "RateLimit-Reset" (itoa (pos ((t.refused + to_ℕ cfg.window) / second)))
            ∷ set_header "Retry-After" "60"
            ∷ refusal;
      }
      else record {
        limiter = l';
        passed = true;
        out =
            set_header "RateLimit-Limit" (itoa cfg.capacity)
            ∷ set_header "RateLimit-Remaining" (itoa left)
            ∷ [];
      }

  -- The handler of `NewWithLimiter`, over any limiter and any key function.
  unfoldable pub serve_with_limiter :
      {S : Type 0} → Limiter S → (HttpRequest → String) → S → HttpRequest → Readings → Verdict S
  serve_with_limiter lim key_func limiter r t =
      let key = key_func r in
      let (l, ok) = lim.allow limiter key t.opened t.taken in
      let (l', left) = lim.remaining l key t.reopened t.shown in
      if not ok
      then record {
        limiter = l;
        passed = false;
        out =
            set_header "RateLimit-Remaining" "0"
            ∷ set_header "X-RateLimit-Remaining" "0"
            ∷ set_header "Retry-After" "1"
            ∷ refusal;
      }
      else record {
        limiter = l';
        passed = true;
        out =
            set_header "RateLimit-Remaining" (itoa left)
            ∷ set_header "X-RateLimit-Remaining" (itoa left)
            ∷ [];
      }

-- `NewWithLimiter` without a key function, or with nil.
unfoldable pub key_func_or_default :
    {Ip Net : Type 0} → NetLib Ip Net → Option (HttpRequest → String) → HttpRequest → String
key_func_or_default lib none r = real_ip lib (some r) []
key_func_or_default lib (some kf) r = kf r

-- `KeyFuncWithTrustedProxies`.
unfoldable pub key_func_with_trusted_proxies :
    {Ip Net : Type 0} → NetLib Ip Net → List String → HttpRequest → String
key_func_with_trusted_proxies lib cidrs r = real_ip lib (some r) (parse_trusted_proxies lib cidrs)
