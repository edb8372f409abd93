-- ===== src/RateLimit/TokenBucket/Collection.antt =====
-- The map of buckets: what every operation keeps.
use go_libs.Common.{
  ℕ, ◌≤◌, ◌<◌, ◌≡◌, String, List, [], ◌∷◌, arith, ℤ, pos, leb_ℤ, ltb_ℤ, sub_time, lookup, insert,
  string_discrete, Bool-cases, inl, inr, Option-cases, Distinct, AllValues, All, delete_if-Distinct,
  insert-Distinct, delete-Distinct, AllValues-insert, AllValues-delete, AllValues-delete_if,
  AllValues-lookup,
}
use go_libs.RateLimit.TokenBucket.{
  Bucket, TokenBucketLimiter, new_token_bucket, init_defaults, maybe_gc, find_or_add, take_tokens,
  remaining, get_bucket, allow_n, reset,
}

pub record Valid (l : TokenBucketLimiter) : Type 0 where
  pub capacity : 0 < l.capacity
  pub rate : 0 < l.refill_rate
  pub interval : 0 < l.gc_interval
  pub timeout : 0 < l.idle_timeout
  pub collected : 0 < l.last_gc
  pub distinct : Distinct string_discrete l.buckets
  pub capped : AllValues (λ b. b.tokens ≤ l.capacity) l.buckets

pub init_defaults_same : (l : TokenBucketLimiter) (now : ℕ) → Valid l → init_defaults l now ≡ l
unfolding init_defaults
init_defaults_same l now v = ground arith

maybe_gc-Valid : (l : TokenBucketLimiter) (now : ℕ) → 0 < now → Valid l → Valid (maybe_gc l now)
unfolding maybe_gc
maybe_gc-Valid l now p v = elim (Bool-cases (ltb_ℤ (sub_time now l.last_gc) (pos l.gc_interval))) [
  | inl early ↦ rw (early, maybe_gc) v
  | inr due ↦
      rw (due, maybe_gc)
        (record {
          capacity = v.capacity;
          rate = v.rate;
          interval = v.interval;
          timeout = v.timeout;
          collected = p;
          distinct = delete_if-Distinct string_discrete _ l.buckets v.distinct;
          capped = AllValues-delete_if (λ b. b.tokens ≤ l.capacity) _ l.buckets v.capped;
        })
]

put-Valid :
    (l : TokenBucketLimiter) (key : String) (b : Bucket)
    → b.tokens ≤ l.capacity
    → Valid l
    → Valid (record l { buckets = insert string_discrete key b l.buckets })
put-Valid l key b t v = record {
  capacity = v.capacity;
  rate = v.rate;
  interval = v.interval;
  timeout = v.timeout;
  collected = v.collected;
  distinct = insert-Distinct string_discrete key b l.buckets v.distinct;
  capped = AllValues-insert (λ b. b.tokens ≤ l.capacity) string_discrete key b l.buckets t v.capped;
}

abbrev Served : TokenBucketLimiter × Bucket → Type 0
Served (l, b) = Valid l × (b.tokens ≤ l.capacity)

find_or_add-Served :
    (l : TokenBucketLimiter) (key : String) (now : ℕ) → Valid l → Served (find_or_add l key now)
unfolding find_or_add
find_or_add-Served l key now v = elim (Option-cases (lookup string_discrete key l.buckets)) [
  | inl miss ↦ rw (miss, find_or_add) (put-Valid l key _ (omega arith) v, omega arith)
  | inr (b, hit) ↦
      rw (hit, find_or_add)
        (
          v,
          AllValues-lookup (λ b. b.tokens ≤ l.capacity) string_discrete key b l.buckets v.capped
              hit,
        )
]

get_bucket-Served :
    (l : TokenBucketLimiter) (key : String) (now : ℕ)
    → 0 < now
    → Valid l
    → Served (get_bucket l key now)
unfolding get_bucket
get_bucket-Served l key now p v = elim (Option-cases (lookup string_discrete key l.buckets)) [
  | inl miss ↦
      rw (miss, get_bucket, init_defaults_same l now v)
        (find_or_add-Served _ key now (maybe_gc-Valid l now p v))
  | inr (b, hit) ↦
      rw (hit, get_bucket)
        (
          v,
          AllValues-lookup (λ b. b.tokens ≤ l.capacity) string_discrete key b l.buckets v.capped
              hit,
        )
]

take_tokens_capped :
    (capacity rate : ℕ) (b : Bucket) (n now : ℕ)
    → b.tokens ≤ capacity
    → (take_tokens capacity rate b n now).0.tokens ≤ capacity
unfolding take_tokens
take_tokens_capped capacity rate b n now h = ground arith

pub allow_n-Valid :
    (l : TokenBucketLimiter) (key : String) (n : ℤ) (opened now : ℕ)
    → 0 < opened
    → Valid l
    → Valid (allow_n l key n opened now).0
unfolding allow_n
allow_n-Valid l key n opened now p v = elim (Bool-cases (leb_ℤ n (pos 0))) [
  | inl few ↦ rw few v
  | inr more ↦
      let (v', t) = get_bucket-Served l key opened p v in
      rw more (put-Valid _ key _ (take_tokens_capped _ _ _ _ now t) v')
]

reset-Valid : (l : TokenBucketLimiter) (key : String) → Valid l → Valid (reset l key)
unfolding reset
reset-Valid l key v = record {
  capacity = v.capacity;
  rate = v.rate;
  interval = v.interval;
  timeout = v.timeout;
  collected = v.collected;
  distinct = delete-Distinct string_discrete key l.buckets v.distinct;
  capped = AllValues-delete (λ b. b.tokens ≤ l.capacity) string_discrete key l.buckets v.capped;
}

new-Valid : (capacity rate : ℤ) (now : ℕ) → 0 < now → Valid (new_token_bucket capacity rate now)
unfolding new_token_bucket
new-Valid capacity rate now p = ground arith

pub data Op : Type 0 where
  allow_op : String → ℤ → (opened now : ℕ) → Op
  remaining_op : String → (opened now : ℕ) → Op
  reset_op : String → Op

abbrev pub OpenedAfterZero : Op → Type 0
OpenedAfterZero (allow_op key n opened now) = 0 < opened
OpenedAfterZero (remaining_op key opened now) = 0 < opened
OpenedAfterZero (reset_op key) = Unit {0}

unfoldable pub run_op : TokenBucketLimiter → Op → TokenBucketLimiter
run_op l (allow_op key n opened now) = (allow_n l key n opened now).0
run_op l (remaining_op key opened now) = (remaining l key opened now).0
run_op l (reset_op key) = reset l key

remaining-Valid :
    (l : TokenBucketLimiter) (key : String) (opened now : ℕ)
    → 0 < opened
    → Valid l
    → Valid (remaining l key opened now).0
unfolding remaining
remaining-Valid l key opened now p v = (get_bucket-Served l key opened p v).0

run_op-Valid : (l : TokenBucketLimiter) (o : Op) → OpenedAfterZero o → Valid l → Valid (run_op l o)
unfolding run_op
run_op-Valid l (allow_op key n opened now) p v = allow_n-Valid l key n opened now p v
run_op-Valid l (remaining_op key opened now) p v = remaining-Valid l key opened now p v
run_op-Valid l (reset_op key) p v = reset-Valid l key v

unfoldable pub run_ops : TokenBucketLimiter → List Op → TokenBucketLimiter
run_ops l [] = l
run_ops l (o ∷ os) = run_ops (run_op l o) os

run_ops_from :
    (os : List Op) (l : TokenBucketLimiter)
    → All OpenedAfterZero os
    → Valid l
    → Valid (run_ops l os)
unfolding run_ops
run_ops_from [] l p v = v
run_ops_from (o ∷ os) l p v = run_ops_from os (run_op l o) p.1 (run_op-Valid l o p.0 v)

-- After any calls of `AllowN`, `Remaining` and `Reset`, whatever their keys, counts and clock
-- readings (which are not zero), a limiter that the constructor made has positive settings, no key
-- twice, and in no bucket more tokens than its capacity.
run_ops-Valid :
    (capacity rate : ℤ) (now : ℕ) (os : List Op)
    → 0 < now
    → All OpenedAfterZero os
    → Valid (run_ops (new_token_bucket capacity rate now) os)
run_ops-Valid capacity rate now os p h = run_ops_from os _ h (new-Valid capacity rate now p)
