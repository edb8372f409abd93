-- ===== src/Examples/Addresses.antt =====
-- ratelimit/realip.go and ratelimit/ratelimit.go at concrete inputs. An address is a number, a network has
-- one address, and a port is not written.
use go_libs.Common.{
  ℕ, ◌+◌, ◌*◌, ◌-◌, ◌≤◌, ◌==◌, ◌≡◌, refl, true, false, Option, none, some, String, List, [], ◌∷◌,
  if◌then◌else◌, str_eq, ℤ, pos, arith, lookup, insert, string_discrete,
}
use go_libs.RateLimit.TokenBucket.{
  TokenBucketLimiter, new_token_bucket, allow, allow_n, remaining, remaining_in, get_bucket,
  init_defaults, maybe_gc, find_or_add, take_tokens, refill,
}
use go_libs.RateLimit.TokenBucket.Sharing.{granted_to}
use go_libs.RateLimit.RealIp.{
  NetLib, HttpRequest, extract_ip, is_trusted, trim_space, trim_start, trim_end, trimmed_parts,
  forwarded_parts, scan_back, parse_xff, real_ip, behind_proxy,
}
use go_libs.RateLimit.RealIp.Forwarded.{rightmost_untrusted, chosen_address, parse_xff_lem}
use go_libs.RateLimit.RealIp.Spoofing.{spoofed_values_ignored}
use go_libs.RateLimit.Middleware.{MiddlewareConfig, configure, make_limiter, rate_of, serve}
use go_libs.RateLimit.Middleware.Admission.{Visit, serve_all, admitted_bound}

abbrev known : List (String × ℕ)
known = ("10.0.0.1", 1) ∷ ("10.0.0.2", 2) ∷ ("9.9.9.9", 9) ∷ ("6.6.6.6", 6) ∷ []

abbrev table : NetLib ℕ ℕ
table = record {
  trim_spaces = trim_space;
  trim_brackets = λ s. s;
  split_commas = λ s. if str_eq s "9.9.9.9, 10.0.0.2" then "9.9.9.9" ∷ " 10.0.0.2" ∷ [] else s ∷ [];
  has_slash = λ s. false;
  concat = λ s t. s;
  split_host_port = λ s. none;
  parse_ip = λ s. lookup string_discrete s known;
  ip_string = λ n. if n == 9 then "9.9.9.9" else if n == 6 then "6.6.6.6" else "10.0.0.2";
  is_v4 = λ n. true;
  parse_cidr = λ s. lookup string_discrete s known;
  net_contains = λ n ip. n == ip;
}

abbrev proxies : List (Option ℕ)
proxies = some 1 ∷ none ∷ some 2 ∷ []

-- The client wrote the first value, the proxies the second one.
abbrev forged : HttpRequest
forged = record {
  remote_addr = " 10.0.0.1";
  header = λ k. if str_eq k "X-Forwarded-For" then "6.6.6.6" ∷ "9.9.9.9, 10.0.0.2" ∷ [] else [];
}

parse_xff_lem_example :
    parse_xff table forged proxies
    ≡ chosen_address table proxies (forwarded_parts table (forged.header "X-Forwarded-For")) ""
parse_xff_lem_example = parse_xff_lem table proxies forged

spoofed_values_ignored_example : real_ip table (some forged) proxies ≡ "9.9.9.9"
unfolding extract_ip trim_space trim_start trim_end lookup string_discrete is_trusted
    forwarded_parts trimmed_parts rightmost_untrusted
spoofed_values_ignored_example =
    spoofed_values_ignored table proxies forged 1 9 ("6.6.6.6" ∷ []) ("9.9.9.9, 10.0.0.2" ∷ []) refl
      refl refl refl refl

-- Two requests in 60 nanoseconds, so a token comes back every 30.
abbrev two_a_minute : MiddlewareConfig ℕ
two_a_minute = configure (pos 2) (pos 60) proxies

abbrev at : ℕ → HttpRequest → Visit
at t r = record {
  request = r;
  times = record { opened = t; taken = t; reopened = t; shown = t; refused = t };
}

-- A request from another address.
abbrev stranger : HttpRequest
stranger = record { remote_addr = "6.6.6.6"; header = λ k. [] }

abbrev bytes : String → List ℕ
bytes s = []

abbrev itoa : ℤ → String
itoa n = "n"

abbrev visits : List Visit
visits = at 100 forged ∷ at 105 forged ∷ at 110 stranger ∷ at 115 forged ∷ at 140 forged ∷ []

admitted_bound_example :
    let l : TokenBucketLimiter = make_limiter two_a_minute 50 in
    (serve_all bytes itoa table two_a_minute l "9.9.9.9" visits).1 * l.refill_rate
    ≤ l.capacity * l.refill_rate + (150 - 50)
admitted_bound_example =
    admitted_bound bytes itoa table two_a_minute 50 150 "9.9.9.9" visits (omega arith)
      (
        (omega arith, omega arith, omega arith),
        (
          (omega arith, omega arith, omega arith),
          (
            (omega arith, omega arith, omega arith),
            (
              (omega arith, omega arith, omega arith),
              ((omega arith, omega arith, omega arith), tt),
            ),
          ),
        ),
      )
      (omega arith, (omega arith, (omega arith, (omega arith, (omega arith, omega arith)))))

three_admitted :
    (serve_all bytes itoa table two_a_minute (make_limiter two_a_minute 50) "9.9.9.9" visits).1 ≡ 3
unfolding serve_all serve granted_to allow allow_n remaining remaining_in get_bucket init_defaults
    maybe_gc find_or_add take_tokens refill insert make_limiter new_token_bucket rate_of extract_ip
    trim_space trim_start trim_end lookup string_discrete is_trusted forwarded_parts trimmed_parts
    rightmost_untrusted real_ip behind_proxy parse_xff scan_back configure
three_admitted = refl
