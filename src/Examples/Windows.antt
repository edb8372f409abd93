-- ===== src/Examples/Windows.antt =====
-- ratelimit/sliding_window.go at concrete inputs, with whole numbers for `float64`.
use go_libs.Common.{
  ℕ, ◌+◌, ◌*◌, ◌/◌, ◌≡◌, ◌≤◌, ◌<◌, refl, true, false, List, [], ◌∷◌, arith, pos, lookup,
  string_discrete, string_ne, Float, IsIeee, leb, ltb, to_ℕ,
}
use go_libs.RateLimit.SlidingWindow.{Entry, SlidingWindowLimiter, allow_n}
use go_libs.RateLimit.SlidingWindow.Quota.{Call, run_calls, granted-le-limit}
use go_libs.RateLimit.SlidingWindow.Overflow.{huge_request_granted}
use go_libs.RateLimit.SlidingWindow.Forgetting.{Valid, open_window_forgotten}

-- Whole numbers, with a division that rounds down.
abbrev pub whole : Float
whole = record {
  F = ℕ;
  of_nat = λ n. n;
  half = 0;
  div = λ a b. a / b;
  mul = λ a b. a * b;
  add = λ a b. a + b;
  leb = leb;
  ltb = ltb;
  of_int = to_ℕ;
  trunc = λ n. n;
  to_int = pos;
}

mul_right : (p x y : ℕ) → x ≤ y → p * x ≤ p * y
mul_right p x y h = grind arith

div-one : (a b : ℕ) → a ≤ b → 0 < b → a / b ≤ 1
div-one a b h p = grind arith

whole-IsIeee : IsIeee whole
whole-IsIeee = record {
  le = λ a b. a ≤ b;
  div_nonneg = λ a b p. omega arith;
  div-le-one = div-one;
  mul_mono = mul_right;
  mul-zero = λ p h. omega arith;
  mul-one = λ p h. omega arith;
  add_mono = λ c x y h. omega arith;
  add_exact = λ p c h. refl;
  trunc_mono = λ x y h. h;
  trunc_exact = λ n h. refl;
  of_int_pos = λ n. refl;
  to_int-trunc = λ n x h. refl;
}

-- A key that has used three of its three requests in the window from 1000 to 1100.
abbrev spent : Entry
spent = record { curr_window_start = 1000; curr_count = pos 3; prev_count = pos 0 }

abbrev limiter : Entry → SlidingWindowLimiter
limiter e = record {
  windows = ("a", e) ∷ [];
  limit = 3;
  window = 100;
  last_gc = 900;
  gc_interval = 5;
  idle_timeout = 5;
}

abbrev partly : Entry
partly = record spent { curr_count = pos 1 }

calls : List Call
calls =
    record { count = pos 2; opened = 1005; now = 1012 }
    ∷ record { count = pos 1; opened = 1015; now = 1016 }
    ∷ []

granted-le-limit_example : 1 + (run_calls whole (limiter partly) "a" calls).1 ≤ 3
unfolding lookup string_discrete calls
granted-le-limit_example =
    granted-le-limit whole whole-IsIeee (limiter partly) "a" 1000 partly calls (omega arith)
      (omega arith) refl
      (record {
        here = refl;
        count = 1;
        is_count = refl;
        curr = omega arith;
        earlier = 0;
        is_earlier = refl;
        prev = omega arith;
      })
      ((refl, omega arith), ((refl, omega arith), tt))

limiter-Valid : Valid (limiter spent)
unfolding lookup
limiter-Valid = record {
  limit = omega arith;
  window = omega arith;
  interval = omega arith;
  timeout = omega arith;
  collected = omega arith;
  distinct = (refl, tt);
}

open_window_forgotten_example :
    ((allow_n whole (limiter spent) "a" (pos 2) 1010 1010).1 ≡ false)
    × ((allow_n whole
          (allow_n whole (limiter spent) "b" (pos 1) 1010 1010).0
          "a"
          (pos 3)
          1010
          1010).1
        ≡ true)
unfolding lookup string_discrete
open_window_forgotten_example =
    open_window_forgotten whole (limiter spent) "a" "b" spent (pos 1) (pos 2) 1010 0 whole-IsIeee
      limiter-Valid (omega arith) (string_ne "a" "b" refl) refl refl (omega arith) refl
      (omega arith) refl refl (omega arith) (omega arith) (omega arith) (omega arith)

huge_request_granted_example :
    (allow_n whole (limiter partly) "a" (pos 9_223_372_036_854_775_807) 1010 1010).1 ≡ true
unfolding lookup string_discrete
huge_request_granted_example =
    huge_request_granted whole (limiter partly) "a" partly 9_223_372_036_854_775_807 1010 1010 0 1
      whole-IsIeee (omega arith) (omega arith) refl refl refl refl (omega arith) (omega arith)
