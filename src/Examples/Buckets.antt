-- ===== src/Examples/Buckets.antt =====
-- ratelimit/token_bucket.go at concrete inputs.
use go_libs.Common.{
  ◌+◌, ◌-◌, ◌*◌, ◌≡◌, ◌↔◌, ◌≤◌, refl, true, false, List, [], ◌∷◌, arith, pos, ◌≤ℤ◌, lookup, insert,
  string_discrete, string_ne,
}
use go_libs.RateLimit.TokenBucket.{
  TokenBucketLimiter, init_defaults, maybe_gc, find_or_add, allow_n, remaining, get_bucket,
  take_tokens, refill,
}
use go_libs.RateLimit.TokenBucket.Budget.{allow_n-remaining}
use go_libs.RateLimit.TokenBucket.Sharing.{
  KeyCall, Settled, granted_to, run_key_calls, granted_among_others,
}
use go_libs.RateLimit.TokenBucket.Collection.{Valid}
use go_libs.RateLimit.TokenBucket.Forgetting.{idle_debt_forgotten}

-- A key with one token left of three, and a token every 10.
abbrev used : TokenBucketLimiter
used = record {
  buckets = ("a", record { tokens = 1; last = 100 }) ∷ [];
  capacity = 3;
  refill_rate = 10;
  last_gc = 50;
  gc_interval = 5;
  idle_timeout = 5;
}

-- The same key, with the next collection due at 250.
abbrev shared : TokenBucketLimiter
shared = record used { gc_interval = 200 }

shared_calls : List KeyCall
shared_calls =
    record { key = "a"; call = record { count = pos 2; opened = 105; now = 112 } }
    ∷ record { key = "b"; call = record { count = pos 3; opened = 113; now = 113 } }
    ∷ record { key = "a"; call = record { count = pos 1; opened = 115; now = 120 } }
    ∷ []

shared-Settled : Settled shared
shared-Settled = record {
  capacity = omega arith;
  rate = omega arith;
  interval = omega arith;
  timeout = omega arith;
  collected = omega arith;
}

three_granted : (run_key_calls shared "a" shared_calls).1 ≡ 3
unfolding run_key_calls shared_calls granted_to allow_n get_bucket init_defaults maybe_gc
    find_or_add take_tokens refill lookup insert string_discrete
three_granted = refl

granted_among_others_example : (run_key_calls shared "a" shared_calls).1 * 10 ≤ 1 * 10 + (130 - 100)
unfolding lookup string_discrete shared_calls
granted_among_others_example =
    granted_among_others shared "a" (record { tokens = 1; last = 100 }) shared_calls 130
      shared-Settled refl (omega arith) (omega arith)
      (omega arith, (omega arith, (omega arith, tt)))

allow_n-remaining_example :
    ((allow_n used "a" (pos 2) 105 112).1 ≡ true) ↔ (pos 2 ≤ℤ (remaining used "a" 105 112).1)
unfolding lookup string_discrete
allow_n-remaining_example =
    allow_n-remaining used "a" (record { tokens = 1; last = 100 }) 2 105 112 refl (omega arith)
      (omega arith) (omega arith)

used-Valid : Valid used
unfolding lookup
used-Valid = record {
  capacity = omega arith;
  rate = omega arith;
  interval = omega arith;
  timeout = omega arith;
  collected = omega arith;
  distinct = (refl, tt);
  capped = omega arith;
}

-- With 110 on the clock the key has two tokens; a request of another key gives it three.
idle_debt_forgotten_example :
    ((allow_n used "a" (pos 3) 110 110).1 ≡ false)
    × ((allow_n (allow_n used "b" (pos 1) 110 110).0 "a" (pos 3) 110 110).1 ≡ true)
unfolding lookup string_discrete
idle_debt_forgotten_example =
    idle_debt_forgotten used "a" "b" (record { tokens = 1; last = 100 }) (pos 1) 110 used-Valid
      (string_ne "a" "b" refl) refl refl (omega arith) (omega arith) (omega arith) (omega arith)
