-- ===== src/RateLimit/SlidingWindow/Overflow.antt =====
-- Requests to ratelimit/sliding_window.go for so many that the sum with the count wraps around.
use go_libs.Common.{
  ℕ, ◌+◌, ◌-◌, ◌≤◌, ◌<◌, ◌≡◌, true, false, some, String, arith, ℤ, pos, negsuc, leb_ℤ, ◌+ℤ◌, wrap,
  int_limit, word, lookup, string_discrete, Float, IsIeee, exact_limit,
}
use go_libs.RateLimit.SlidingWindow.{
  Entry, SlidingWindowLimiter, truncate, weighted, estimated_count, count_request, allow_n,
}
use go_libs.RateLimit.SlidingWindow.Quota.{weighted_bounds, advance_same, allow_n_held}

sum_wraps :
    (a : ℤ) (k n : ℕ)
    → a ≡ pos k
    → int_limit ≤ k + n
    → k + n < word
    → wrap (a +ℤ pos n) ≡ negsuc (word - (k + n) - 1)
unfolding wrap ◌+ℤ◌
sum_wraps a k n e h b = rw e (ground arith)

-- A key that has an entry in the current window and has used a part `c` of its limit is granted any request for
-- `n` with which the sum of `c` and `n` reaches 2^63, although `n` is beyond every limit: the sum that is
-- compared wraps around to a negative number.
pub huge_request_granted :
    (f : Float) (l : SlidingWindowLimiter) (key : String) (e : Entry) (n now opened p c : ℕ)
    → IsIeee f
    → 0 < l.window
    → p + c ≤ exact_limit
    → lookup string_discrete key l.windows ≡ some e
    → truncate now l.window ≡ e.curr_window_start
    → e.prev_count ≡ pos p
    → e.curr_count ≡ pos c
    → n < int_limit
    → int_limit ≤ c + n
    → (allow_n f l key (pos n) opened now).1 ≡ true
unfolding count_request estimated_count
huge_request_granted f l key e n now opened p c ieee w b held t is_p is_c small huge =
    let (k, is_k, low, high) = weighted_bounds f ieee e now l.window p c w is_p is_c b in
    let few : leb_ℤ (pos n) (pos 0) ≡ false = ground (arith, huge, b) in
    let sum =
      sum_wraps (f.to_int (weighted f e now l.window)) k n is_k (omega (arith, low, huge))
        (omega (arith, high, b, small)) in
    rw (allow_n_held f l key e (pos n) opened now held, few)
      (rw (advance_same e now l.window t) (rw sum (ground arith)))
