-- ===== src/RateLimit/TokenBucket/Sharing.antt =====
-- What one key of ratelimit/token_bucket.go is granted while other keys are served too, until the next collection.
pub mod NewKeys
use go_libs.Common.{
  ℕ, ◌+◌, ◌-◌, ◌*◌, ◌≤◌, ◌<◌, ◌≡◌, ◌≢◌, refl, sym, ◌∙◌, subst, false, none, some, String, List, [],
  ◌∷◌, map, All, arith, ℤ, pos, leb_ℤ, to_ℕ, lookup, insert, string_discrete, lookup-insert_self,
  lookup-insert_ne, ite, if_pos, if_neg, Bool-cases, Option-cases, inl, inr,
}
use go_libs.RateLimit.TokenBucket.{
  Bucket, TokenBucketLimiter, init_defaults, maybe_gc, find_or_add, get_bucket, allow_n,
}
use go_libs.RateLimit.TokenBucket.Budget.{
  Call, Ordered, granted, allow_n_held, allow_n-Allowed, le_of_Ordered, Ordered-earlier, add-mul,
}

-- The settings that the constructor leaves.
pub record Settled (l : TokenBucketLimiter) : Type 0 where
  pub capacity : 0 < l.capacity
  pub rate : 0 < l.refill_rate
  pub interval : 0 < l.gc_interval
  pub timeout : 0 < l.idle_timeout
  pub collected : 0 < l.last_gc

-- Two limiters with the same settings and the same last collection.
pub record Alike (l l' : TokenBucketLimiter) : Type 0 where
  pub capacity : l'.capacity ≡ l.capacity
  pub rate : l'.refill_rate ≡ l.refill_rate
  pub interval : l'.gc_interval ≡ l.gc_interval
  pub timeout : l'.idle_timeout ≡ l.idle_timeout
  pub collected : l'.last_gc ≡ l.last_gc

pub Alike-buckets :
    (l : TokenBucketLimiter) (m : List (String × Bucket)) → Alike l (record l { buckets = m })
Alike-buckets l m = record {
  capacity = refl;
  rate = refl;
  interval = refl;
  timeout = refl;
  collected = refl;
}

pub Alike-Settled : (l l' : TokenBucketLimiter) → Alike l l' → Settled l → Settled l'
Alike-Settled l l' a s = record {
  capacity = omega (arith, a.capacity, s.capacity);
  rate = omega (arith, a.rate, s.rate);
  interval = omega (arith, a.interval, s.interval);
  timeout = omega (arith, a.timeout, s.timeout);
  collected = omega (arith, a.collected, s.collected);
}

-- One call of `AllowN`, on any key.
pub record KeyCall : Type 0 where
  pub key : String
  pub call : Call

abbrev pub call_of : KeyCall → Call
call_of c = c.call

-- The call comes before the next collection is due.
abbrev pub Early : TokenBucketLimiter → KeyCall → Type 0
Early l c = c.call.opened < l.last_gc + l.gc_interval

-- The tokens of a call on the key `key` that the key `q` is granted.
unfoldable pub granted_to : String → String → ℕ → ℕ
granted_to q key n = ite (string_discrete q key) n 0

-- The calls, one after another, and the number of tokens that the key `q` is granted.
unfoldable pub run_key_calls : TokenBucketLimiter → String → List KeyCall → TokenBucketLimiter × ℕ
run_key_calls l q [] = (l, 0)
run_key_calls l q (c ∷ cs) =
    let (l', ok) = allow_n l c.key c.call.count c.call.opened c.call.now in
    let (l'', rest) = run_key_calls l' q cs in
    (l'', granted_to q c.key (granted (to_ℕ c.call.count) ok) + rest)

pub Settled-same : (l : TokenBucketLimiter) (now : ℕ) → Settled l → init_defaults l now ≡ l
unfolding init_defaults
Settled-same l now s = ground (arith, s.capacity, s.rate, s.interval, s.timeout, s.collected)

pub Early-same :
    (l : TokenBucketLimiter) (now : ℕ) → now < l.last_gc + l.gc_interval → maybe_gc l now ≡ l
unfolding maybe_gc
Early-same l now h = ground arith

-- The look-up of a key leaves the other keys.
get_bucket-Early :
    (l : TokenBucketLimiter) (key q : String) (now : ℕ)
    → Settled l
    → now < l.last_gc + l.gc_interval
    → q ≢ key
    → Alike l (get_bucket l key now).0
      × (lookup string_discrete q (get_bucket l key now).0.buckets
          ≡ lookup string_discrete q l.buckets)
unfolding get_bucket find_or_add
get_bucket-Early l key q now s h n = elim (Option-cases (lookup string_discrete key l.buckets)) [
  | inr (b, e) ↦ rw (e, get_bucket) (Alike-buckets l l.buckets, refl)
  | inl e ↦
      let same = Settled-same l now s in
      let none_dropped = Early-same l now h in
      rw (e, get_bucket)
        (rw (same, none_dropped)
          (rw (e, find_or_add)
            (Alike-buckets l _, lookup-insert_ne string_discrete key q _ l.buckets n)))
]

pub allow_n-Early :
    (l : TokenBucketLimiter) (key q : String) (n : ℤ) (opened now : ℕ)
    → Settled l
    → opened < l.last_gc + l.gc_interval
    → q ≢ key
    → Alike l (allow_n l key n opened now).0
      × (lookup string_discrete q (allow_n l key n opened now).0.buckets
          ≡ lookup string_discrete q l.buckets)
unfolding allow_n
allow_n-Early l key q n opened now s h ne = elim (Bool-cases (leb_ℤ n (pos 0))) [
  | inl few ↦ rw few (Alike-buckets l l.buckets, refl)
  | inr more ↦
      let (a, kept) = get_bucket-Early l key q opened s h ne in
      rw more (
        record {
          capacity = a.capacity;
          rate = a.rate;
          interval = a.interval;
          timeout = a.timeout;
          collected = a.collected;
        },
        lookup-insert_ne string_discrete key q _ (get_bucket l key opened).0.buckets ne ∙ kept,
      )
]

held-Alike :
    (l : TokenBucketLimiter) (key : String) (b : Bucket) (n : ℤ) (opened now : ℕ)
    → lookup string_discrete key l.buckets ≡ some b
    → Alike l (allow_n l key n opened now).0
held-Alike l key b n opened now e =
    rw (allow_n_held l key b n opened now e) (elim (Bool-cases (leb_ℤ n (pos 0))) [
      | inl few ↦ rw few (Alike-buckets l l.buckets)
      | inr more ↦ rw more (Alike-buckets l _)
    ])

pub Early-Alike :
    (l l' : TokenBucketLimiter) (cs : List KeyCall)
    → Alike l l'
    → All (Early l) cs
    → All (Early l') cs
Early-Alike l l' [] a es = tt
Early-Alike l l' (c ∷ cs) a (e, es) =
    (omega (arith, a.collected, a.interval, e), Early-Alike l l' cs a es)

granted_to_self : (q : String) (n : ℕ) → granted_to q q n ≡ n
unfolding granted_to
granted_to_self q n = if_pos (string_discrete q q) refl n 0

pub granted_to_other : (q key : String) (n : ℕ) → q ≢ key → granted_to q key n ≡ 0
unfolding granted_to
granted_to_other q key n p = if_neg (string_discrete q key) p n 0

-- A bucket never gives out more than it holds at the start and refills on the way, whichever keys are served
-- besides, until the next collection is due. If the limiter's settings are positive, as its constructor leaves
-- them, it has a bucket for the key that is not over the capacity, the clock does not go back, and every call of
-- `AllowN`, on whatever key and for however many tokens, comes before the next collection is due, then the tokens
-- that the key is granted up to the time `end`, counted in refill periods, are worth at most its tokens at the
-- start and the time from the bucket's `last` to `end`.
pub granted_among_others :
    (l : TokenBucketLimiter) (q : String) (b : Bucket) (cs : List KeyCall) (end : ℕ)
    → Settled l
    → lookup string_discrete q l.buckets ≡ some b
    → b.tokens ≤ l.capacity
    → Ordered b.last (map call_of cs) end
    → All (Early l) cs
    → (run_key_calls l q cs).1 * l.refill_rate ≤ b.tokens * l.refill_rate + (end - b.last)
unfolding run_key_calls
granted_among_others l q b [] end s e t o es = omega arith
granted_among_others l q b (c ∷ cs) end s e t (first, o) (early, es) =
    let l' = (allow_n l c.key c.call.count c.call.opened c.call.now).0 in
    let ok = (allow_n l c.key c.call.count c.call.opened c.call.now).1 in
    let n = granted (to_ℕ c.call.count) ok in
    elim (string_discrete q c.key) [
      | no p ↦
          let (like, kept) =
            allow_n-Early l c.key q c.call.count c.call.opened c.call.now s early p in
          let ih =
            granted_among_others l' q b cs end (Alike-Settled l l' like s) (kept ∙ e)
              (omega (arith, like.capacity, t))
              (Ordered-earlier b.last c.call.now (map call_of cs) end first o)
              (Early-Alike l l' cs like es) in
          rw (granted_to_other q c.key n p) (omega (arith, rw like.rate at ih))
      | yes p ↦
          let held = subst (λ k. lookup string_discrete k l.buckets ≡ some b) p e in
          let like = held-Alike l c.key b c.call.count c.call.opened c.call.now held in
          let a = allow_n-Allowed l c.key b c.call held first t in
          let there : lookup string_discrete q l'.buckets ≡ some a.bucket =
            subst (λ k. lookup string_discrete k l'.buckets ≡ some a.bucket) (sym p) a.held in
          let own : granted_to q c.key n ≡ n =
            subst (λ k. granted_to q k n ≡ n) p (granted_to_self q n) in
          let ih =
            granted_among_others l' q a.bucket cs end (Alike-Settled l l' like s) there
              (omega (arith, a.filled, a.capacity))
              (Ordered-earlier a.bucket.last c.call.now (map call_of cs) end a.order o)
              (Early-Alike l l' cs like es) in
          rw own (
            omega (
              arith,
              rw a.rate at ih,
              a.paid,
              a.order,
              le_of_Ordered c.call.now (map call_of cs) end o,
              add-mul n (run_key_calls l' q cs).1 l.refill_rate,
            ))
    ]
