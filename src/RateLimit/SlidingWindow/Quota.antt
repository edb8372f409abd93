-- ===== src/RateLimit/SlidingWindow/Quota.antt =====
-- How many requests a key is granted in one window.
use go_libs.Common.{
  negsuc, ◌+ℤ◌, ◌-ℤ◌, ◌≤ℤ◌, wrap, wrap_small, int_limit, ltb_ℤ, leb, subst, ℕ, ◌+◌, ◌-◌, ◌≤◌, ◌<◌,
  min, ◌≡◌, ◌↔◌, refl, Bool, true, false, some, String, List, [], ◌∷◌, if◌then◌else◌, arith, ℤ, pos,
  leb_ℤ, to_ℕ, lookup, string_discrete, All, lookup-insert_self, sym, ap, ◌∙◌, Bool-cases, inl, inr,
  Float, IsIeee, exact_limit,
}
use go_libs.RateLimit.SlidingWindow.{
  Entry, SlidingWindowLimiter, advance, weighted, truncate, estimated_count, count_request,
  remaining, get_entry, store, allow_n,
}

pub advance_same :
    (e : Entry) (now window : ℕ)
    → truncate now window ≡ e.curr_window_start
    → advance e now window ≡ e
unfolding advance
advance_same e now window t = ground arith

-- An entry in the window that starts at `start`, with counts from 0 to the limit.
pub record InWindow (start limit : ℕ) (e : Entry) : Type 0 where
  pub here : e.curr_window_start ≡ start
  pub count : ℕ
  pub is_count : e.curr_count ≡ pos count
  pub curr : count ≤ limit
  pub earlier : ℕ
  pub is_earlier : e.prev_count ≡ pos earlier
  pub prev : earlier ≤ limit

-- One call of `AllowN(key, n)` with its clock readings.
pub record Call : Type 0 where
  pub count : ℤ
  pub opened : ℕ
  pub now : ℕ

-- The reading lies in the window that starts at `start`, and the sums with the count stay below 2^63.
abbrev pub Fits : (start limit window : ℕ) → Call → Type 0
Fits start limit window c =
    (truncate c.now window ≡ start) × (limit + limit + to_ℕ c.count < int_limit)

abbrev pub granted : ℕ → Bool → ℕ
granted n true = n
granted n false = 0

-- The settings of a limiter that has an entry for `key` in the window that starts at `start`.
record Holds (key : String) (start limit window : ℕ) (e : Entry) (l : SlidingWindowLimiter)
    : Type 0 where
  limit_is : l.limit ≡ limit
  window_is : l.window ≡ window
  held : lookup string_discrete key l.windows ≡ some e
  entry : InWindow start limit e

module _ (f : Float) where
  pub allow_n_held :
      (l : SlidingWindowLimiter) (key : String) (e : Entry) (n : ℤ) (opened now : ℕ)
      → lookup string_discrete key l.windows ≡ some e
      → allow_n f l key n opened now ≡ (
          if leb_ℤ n (pos 0)
          then (l, true)
          else store l key (count_request f l.limit l.window e n now))
  unfolding allow_n get_entry
  allow_n_held l key e n opened now h = rw (h, allow_n, get_entry)

  -- The calls on one key, one after another, and the number of requests that they were granted.
  unfoldable pub run_calls : SlidingWindowLimiter → String → List Call → SlidingWindowLimiter × ℕ
  run_calls l key [] = (l, 0)
  run_calls l key (c ∷ cs) =
      let (l', ok) = allow_n f l key c.count c.opened c.now in
      let (l'', rest) = run_calls l' key cs in (l'', granted (to_ℕ c.count) ok + rest)

add_pos : (a b : ℕ) → pos a +ℤ pos b ≡ pos (a + b)
unfolding ◌+ℤ◌
add_pos a b = ground arith

-- A sum of a count and a request that does not reach 2^63.
pub sum_kept :
    (a : ℤ) (k : ℕ) (n : ℤ)
    → a ≡ pos k
    → pos 0 ≤ℤ n
    → k + to_ℕ n < int_limit
    → wrap (a +ℤ n) ≡ pos (k + to_ℕ n)
sum_kept a k (pos n) e p h = rw e (ap wrap (add_pos k n) ∙ wrap_small (k + n) h)
sum_kept a k (negsuc n) e p h = absurd (ground (arith, p))

module _ (f : Float) (ieee : IsIeee f) where
  open f use {F, of_nat, of_int, div, mul, add, trunc, to_int}

  -- The weighted count is at least the current count, and at most the sum of the two counts.
  pub weighted_bounds :
      (e : Entry) (now window p c : ℕ)
      → 0 < window
      → e.prev_count ≡ pos p
      → e.curr_count ≡ pos c
      → p + c ≤ exact_limit
      → (k : ℕ) × (to_int (weighted f e now window) ≡ pos k) × (c ≤ k) × (k ≤ p + c)
  weighted_bounds e now window p c w is_p is_c h =
      let left = window - min window (now - e.curr_window_start) in
      let ratio = div (of_nat left) (of_nat window) in
      let x = add (mul (of_nat p) ratio) (of_nat c) in
      let is_x : weighted f e now window ≡ x =
        ap (λ y. add (mul y ratio) (of_int e.curr_count)) (ap of_int is_p ∙ ieee.of_int_pos p)
        ∙ ap (λ y. add (mul (of_nat p) ratio) y) (ap of_int is_c ∙ ieee.of_int_pos c) in
      let low = ieee.add_mono c _ _ (ieee.mul_mono p _ _ (ieee.div_nonneg left window w)) in
      let high =
        ieee.add_mono c _ _ (ieee.mul_mono p _ _ (ieee.div-le-one left window (omega arith) w)) in
      let least : add (mul (of_nat p) (of_nat 0)) (of_nat c) ≡ of_nat (0 + c) =
        ap (λ y. add y (of_nat c)) (ieee.mul-zero p (omega arith))
        ∙ ieee.add_exact 0 c (omega arith) in
      let at_low = ap trunc least ∙ ieee.trunc_exact (0 + c) (omega arith) in
      let at_high : trunc (add (mul (of_nat p) (of_nat 1)) (of_nat c)) ≡ p + c =
        ap (λ y. trunc (add y (of_nat c))) (ieee.mul-one p (omega arith))
        ∙ ap trunc (ieee.add_exact p c h)
        ∙ ieee.trunc_exact (p + c) h in
      (
        trunc x,
        ap to_int is_x ∙ ieee.to_int-trunc (0 + c) x (subst (λ y. ieee.le y x) least low),
        omega (arith, ieee.trunc_mono _ _ low, at_low),
        omega (arith, ieee.trunc_mono _ _ high, at_high),
      )

  count_request-InWindow :
      (start limit window : ℕ) (e : Entry) (n : ℤ) (now : ℕ)
      → 0 < window
      → limit + limit ≤ exact_limit
      → limit + limit + to_ℕ n < int_limit
      → pos 0 ≤ℤ n
      → truncate now window ≡ start
      → (v : InWindow start limit e)
      → let (c, ok) = count_request f limit window e n now in
        (v' : InWindow start limit c) × (v'.count ≡ v.count + granted (to_ℕ n) ok)
  unfolding count_request estimated_count
  count_request-InWindow start limit window e n now w b small p t v =
      let (k, is_k, low, high) =
        weighted_bounds e now window v.earlier v.count w v.is_earlier v.is_count
          (omega (arith, v.curr, v.prev)) in
      let asked =
        sum_kept (to_int (weighted f e now window)) k n is_k p
          (omega (arith, high, v.curr, v.prev)) in
      let added = sum_kept e.curr_count v.count n v.is_count p (omega (arith, v.curr)) in
      rw (advance_same e now window (t ∙ sym v.here)) (
        rw (asked, added)
          (elim (Bool-cases (ltb_ℤ (pos limit) (pos (k + to_ℕ n)))) [
            | inl over ↦ rw over (v, omega arith)
            | inr fits ↦ rw fits (
              record {
                here = v.here;
                count = v.count + to_ℕ n;
                is_count = refl;
                curr = ground arith;
                earlier = v.earlier;
                is_earlier = v.is_earlier;
                prev = v.prev;
              },
              refl,
            )
          ]))

  module _ (key : String) (start limit window : ℕ) (w : 0 < window)
      (b : limit + limit ≤ exact_limit) where
    -- What one call does in the window.
    record Counted (count : ℕ) (n : ℕ) (r : SlidingWindowLimiter × Bool) : Type 0 where
      entry : Entry
      holds : Holds key start limit window entry r.0
      sum : holds.entry.count ≡ count + granted n r.1

    allow_n-Counted :
        (l : SlidingWindowLimiter) (e : Entry) (c : Call)
        → (h : Holds key start limit window e l) → truncate c.now window ≡ start
        → limit + limit + to_ℕ c.count < int_limit
        → Counted h.entry.count (to_ℕ c.count) (allow_n f l key c.count c.opened c.now)
    allow_n-Counted l e c h t small =
        rw (allow_n_held f l key e c.count c.opened c.now h.held)
          (elim (Bool-cases (leb_ℤ c.count (pos 0))) [
            | inl few ↦ rw few (record { entry = e; holds = h; sum = ground arith })
            | inr more ↦ rw more (
                let k =
                  count_request-InWindow start limit window e c.count c.now w b small (ground arith)
                    t h.entry in
                rw (h.limit_is, h.window_is)
                  (record {
                    entry = (count_request f limit window e c.count c.now).0;
                    holds = record {
                      limit_is = refl;
                      window_is = refl;
                      held = lookup-insert_self string_discrete key _ l.windows;
                      entry = k.0;
                    };
                    sum = k.1;
                  }))
          ])

    granted_from :
        (l : SlidingWindowLimiter) (e : Entry) (cs : List Call)
        → (h : Holds key start limit window e l) → All (Fits start limit window) cs
        → h.entry.count + (run_calls f l key cs).1 ≤ limit
    unfolding run_calls
    granted_from l e [] h t = omega (arith, h.entry.curr)
    granted_from l e (c ∷ cs) h ((t, small), ts) =
        let k = allow_n-Counted l e c h t small in
        omega (
          arith,
          k.sum,
          granted_from (allow_n f l key c.count c.opened c.now).0 k.entry cs k.holds ts,
        )

  -- No window admits more than the limit. While a key has an entry in the window that starts at `start`, with
  -- counts from 0 to the limit, the requests that calls of `AllowN` on the key are granted at times in that
  -- window and those that the entry counts already are together at most the limit, if no call is on
  -- another key and each asks for less than 2^63 less twice the limit, so that no sum wraps around. The limit is
  -- at most 2^52, and the arithmetic on `float64` is that of IEEE 754.
  pub granted-le-limit :
      (l : SlidingWindowLimiter) (key : String) (start : ℕ) (e : Entry) (cs : List Call)
      → 0 < l.window
      → l.limit + l.limit ≤ exact_limit
      → lookup string_discrete key l.windows ≡ some e
      → InWindow start l.limit e
      → All (Fits start l.limit l.window) cs
      → to_ℕ e.curr_count + (run_calls f l key cs).1 ≤ l.limit
  granted-le-limit l key start e cs w b h v ts =
      let counted : to_ℕ e.curr_count ≡ v.count = ap to_ℕ v.is_count in
      omega (
        arith,
        counted,
        granted_from key start l.limit l.window w b l e cs
            (record { limit_is = refl; window_is = refl; held = h; entry = v }) ts,
      )

wrapped_negsuc : (m : ℕ) → m < int_limit → wrap (negsuc m) ≡ negsuc m
unfolding wrap
wrapped_negsuc m h = ground arith

-- A difference of two counts does not wrap around.
difference_kept :
    (limit k : ℕ) → limit < int_limit → k < int_limit → to_ℕ (wrap (pos limit -ℤ pos k)) ≡ limit - k
unfolding wrap ◌-ℤ◌
difference_kept limit k a b = elim (Bool-cases (leb k limit)) [
  | inl e ↦
      let diff : pos limit -ℤ pos k ≡ pos (limit - k) = ground arith in
      ap (λ z. to_ℕ (wrap z)) diff ∙ ap to_ℕ (wrap_small (limit - k) (omega (arith, a)))
  | inr e ↦
      let diff : pos limit -ℤ pos k ≡ negsuc (k - limit - 1) = ground arith in
      let below : wrap (negsuc (k - limit - 1)) ≡ negsuc (k - limit - 1) =
        wrapped_negsuc (k - limit - 1) (omega (arith, b)) in
      ap (λ z. to_ℕ (wrap z)) diff ∙ ap to_ℕ below ∙ ground arith
]

module _ (f : Float) where
  -- `Remaining` at a clock reading is exact, whatever the arithmetic on `float64` is and also if the
  -- clock has gone back, if no sum wraps around: `AllowN(key, n)` for a positive `n` at the same reading succeeds if and
  -- only if `n` is at most the number that `Remaining` gives.
  window_allow_n-remaining :
      (l : SlidingWindowLimiter) (key : String) (e : Entry) (n k opened now : ℕ)
      → lookup string_discrete key l.windows ≡ some e
      → 0 < n
      → f.to_int (estimated_count f e now l.window).1 ≡ pos k
      → k + n < int_limit
      → l.limit < int_limit
      → ((allow_n f l key (pos n) opened now).1 ≡ true)
        ↔ (pos n ≤ℤ (remaining f l key opened now).1)
  unfolding remaining get_entry count_request
  window_allow_n-remaining l key e n k opened now h p is_k small fine =
      let few : leb_ℤ (pos n) (pos 0) ≡ false = ground arith in
      let est = f.to_int (estimated_count f e now l.window).1 in
      let asked : wrap (est +ℤ pos n) ≡ pos (k + n) =
        sum_kept est k (pos n) is_k (omega arith) small in
      let rest : (pos n ≤ℤ pos (to_ℕ (wrap (pos l.limit -ℤ est)))) ↔ (k + n ≤ l.limit) = rw is_k (
        rw (difference_kept l.limit k fine (omega (arith, small)))
          (ground (arith, p), ground (arith, p))) in
      rw (allow_n_held f l key e (pos n) opened now h, h, remaining, get_entry, few)
        (rw asked (ground (arith, rest), ground (arith, rest)))
