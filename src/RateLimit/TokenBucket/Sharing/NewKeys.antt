-- ===== src/RateLimit/TokenBucket/Sharing/NewKeys.antt =====
-- What a key of ratelimit/token_bucket.go without a bucket is granted until the next collection.
use go_libs.Common.{
  ℕ, ◌+◌, ◌-◌, ◌*◌, ◌≤◌, ◌<◌, ◌≡◌, refl, sym, ◌∙◌, subst, false, none, some, String, List, [], ◌∷◌,
  map, All, arith, ℤ, pos, leb_ℤ, to_ℕ, lookup, insert, string_discrete, lookup-insert_self,
}
use go_libs.RateLimit.TokenBucket.{Bucket, TokenBucketLimiter, find_or_add, get_bucket, allow_n}
use go_libs.RateLimit.TokenBucket.Budget.{Ordered, granted, allow_n_held, Ordered-earlier}
use go_libs.RateLimit.TokenBucket.Sharing.{
  Settled, Alike, KeyCall, call_of, Early, run_key_calls, granted_to_other, granted_among_others,
  Alike-buckets, Alike-Settled, allow_n-Early, Early-Alike, Settled-same, Early-same,
}

-- The bucket that the look-up of a new key adds.
full_since : TokenBucketLimiter → ℕ → Bucket
full_since l opened = record { tokens = l.capacity; last = opened }

with_full : TokenBucketLimiter → String → ℕ → TokenBucketLimiter
with_full l key opened = record l {
  buckets = insert string_discrete key (full_since l opened) l.buckets;
}

get_bucket_new :
    (l : TokenBucketLimiter) (key : String) (opened : ℕ)
    → Settled l
    → lookup string_discrete key l.buckets ≡ none
    → opened < l.last_gc + l.gc_interval
    → get_bucket l key opened ≡ (with_full l key opened, full_since l opened)
unfolding get_bucket find_or_add with_full full_since
get_bucket_new l key opened s e h =
    let same = Settled-same l opened s in
    let none_dropped = Early-same l opened h in
    rw (e, get_bucket) (rw (same, none_dropped) (rw (e, find_or_add) refl))

with_full_held :
    (l : TokenBucketLimiter) (key : String) (opened : ℕ)
    → lookup string_discrete key (with_full l key opened).buckets ≡ some (full_since l opened)
unfolding with_full
with_full_held l key opened = lookup-insert_self string_discrete key _ l.buckets

-- The first call on a key is the same as on a limiter that has a full bucket for it.
allow_n_new :
    (l : TokenBucketLimiter) (key : String) (n : ℤ) (opened now : ℕ)
    → Settled l
    → lookup string_discrete key l.buckets ≡ none
    → opened < l.last_gc + l.gc_interval
    → leb_ℤ n (pos 0) ≡ false
    → allow_n l key n opened now ≡ allow_n (with_full l key opened) key n opened now
unfolding allow_n
allow_n_new l key n opened now s e h more =
    rw
      (
        allow_n_held (with_full l key opened) key (full_since l opened) n opened now
            (with_full_held l key opened),
        more,
        get_bucket_new l key opened s e h,
      )
      refl

run_key_calls_new :
    (l : TokenBucketLimiter) (key : String) (c : KeyCall) (cs : List KeyCall)
    → Settled l
    → lookup string_discrete c.key l.buckets ≡ none
    → Early l c
    → leb_ℤ c.call.count (pos 0) ≡ false
    → (run_key_calls l key (c ∷ cs)).1
      ≡ (run_key_calls (with_full l c.key c.call.opened) key (c ∷ cs)).1
unfolding run_key_calls
run_key_calls_new l key c cs s e h more =
    rw (allow_n_new l c.key c.call.count c.call.opened c.call.now s e h more, run_key_calls) refl

-- The call asks for a token, and its readings are in order and not before `start`.
abbrev pub Asks : ℕ → KeyCall → Type 0
Asks start c =
    (leb_ℤ c.call.count (pos 0) ≡ false) × (start ≤ c.call.opened) × (c.call.opened ≤ c.call.now)

-- What a key without a bucket is granted from `start` on.
pub granted_to_new :
    (l : TokenBucketLimiter) (q : String) (cs : List KeyCall) (start end : ℕ)
    → Settled l
    → lookup string_discrete q l.buckets ≡ none
    → Ordered start (map call_of cs) end
    → All (Early l) cs
    → All (Asks start) cs
    → (run_key_calls l q cs).1 * l.refill_rate ≤ l.capacity * l.refill_rate + (end - start)
unfolding run_key_calls full_since with_full
granted_to_new l q [] start end s e o es ask = omega arith
granted_to_new l q (c ∷ cs) start end s e (first, o) (early, es) ((more, since, taken), ask) =
    elim (string_discrete q c.key) [
      | no p ↦
          let l' = (allow_n l c.key c.call.count c.call.opened c.call.now).0 in
          let n =
            granted (to_ℕ c.call.count) (allow_n l c.key c.call.count c.call.opened c.call.now).1 in
          let (like, kept) =
            allow_n-Early l c.key q c.call.count c.call.opened c.call.now s early p in
          let ih =
            granted_to_new l' q cs start end (Alike-Settled l l' like s) (kept ∙ e)
              (Ordered-earlier start c.call.now (map call_of cs) end first o)
              (Early-Alike l l' cs like es) ask in
          rw (granted_to_other q c.key n p) (omega (arith, rw (like.rate, like.capacity) at ih))
      | yes p ↦
          let absent = subst (λ k. lookup string_discrete k l.buckets ≡ none) p e in
          let l' = with_full l c.key c.call.opened in
          let like : Alike l l' = Alike-buckets l _ in
          let held =
            subst (λ k. lookup string_discrete k l'.buckets ≡ some (full_since l c.call.opened))
              (sym p) (with_full_held l c.key c.call.opened) in
          let bound =
            granted_among_others l' q (full_since l c.call.opened) (c ∷ cs) end
              (Alike-Settled l l' like s) held (omega arith) (taken, o)
              (Early-Alike l l' (c ∷ cs) like (early, es)) in
          rw (run_key_calls_new l q c cs s absent early more) (omega (arith, bound, since))
    ]
