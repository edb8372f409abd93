-- ===== src/RateLimit/TokenBucket/Forgetting.antt =====
-- What the collection of idle buckets does to a key that is over its limit.
use go_libs.Common.{
  ℕ, ◌+◌, ◌-◌, ◌/◌, ◌≤◌, ◌<◌, ◌≡◌, ◌≢◌, refl, true, false, none, some, String, List, arith, ℤ, pos,
  leb_ℤ, ◌≤ℤ◌, lookup, insert, string_discrete, ap, ◌∙◌, Bool-cases, inl, inr, delete_if,
  lookup-delete_if, lookup-insert_ne,
}
use go_libs.RateLimit.TokenBucket.{
  Bucket, TokenBucketLimiter, idle, maybe_gc, find_or_add, refill, take_tokens, get_bucket, allow_n,
}
use go_libs.RateLimit.TokenBucket.Budget.{div-elapsed, allow_n_held}
use go_libs.RateLimit.TokenBucket.Collection.{Valid, init_defaults_same, allow_n-Valid}

-- The map after a collection that is due.
abbrev swept : TokenBucketLimiter → ℕ → List (String × Bucket)
swept l now = delete_if (idle l.idle_timeout now) l.buckets

maybe_gc_due :
    (l : TokenBucketLimiter) (now : ℕ)
    → l.last_gc + l.gc_interval ≤ now
    → maybe_gc l now ≡ record l { buckets = swept l now; last_gc = now }
unfolding maybe_gc
maybe_gc_due l now due = ground arith

full : TokenBucketLimiter → ℕ → Bucket
full l now = record { tokens = l.capacity; last = now }

find_or_add_new :
    (l : TokenBucketLimiter) (key : String) (now : ℕ)
    → lookup string_discrete key l.buckets ≡ none
    → find_or_add l key now
      ≡ (record l { buckets = insert string_discrete key (full l now) l.buckets }, full l now)
unfolding find_or_add full
find_or_add_new l key now miss = rw (miss, find_or_add)

get_bucket_new :
    (l : TokenBucketLimiter) (key : String) (now : ℕ)
    → Valid l
    → lookup string_discrete key l.buckets ≡ none
    → get_bucket l key now ≡ find_or_add (maybe_gc l now) key now
unfolding get_bucket
get_bucket_new l key now v miss = rw (miss, get_bucket, init_defaults_same l now v)

collected_bucket :
    (l : TokenBucketLimiter) (key other : String) (b : Bucket) (now : ℕ)
    → Valid l
    → key ≢ other
    → lookup string_discrete other l.buckets ≡ none
    → lookup string_discrete key l.buckets ≡ some b
    → l.last_gc + l.gc_interval ≤ now
    → b.last + l.idle_timeout < now
    → let l' = (get_bucket l other now).0 in
      (lookup string_discrete key l'.buckets ≡ none) × (l'.capacity ≡ l.capacity)
collected_bucket l key other b now v ne miss held due old =
    let other_gone : lookup string_discrete other (swept l now) ≡ none =
      lookup-delete_if string_discrete _ other l.buckets v.distinct ∙ rw miss in
    let dead : idle l.idle_timeout now b ≡ true = ground arith in
    let key_gone : lookup string_discrete key (swept l now) ≡ none =
      lookup-delete_if string_discrete _ key l.buckets v.distinct ∙ rw (held, dead) in
    let l' = record l { buckets = swept l now; last_gc = now } in
    rw
      (
        get_bucket_new l other now v miss,
        maybe_gc_due l now due,
        find_or_add_new l' other now other_gone,
      )
      (lookup-insert_ne string_discrete other key _ (swept l now) ne ∙ key_gone, refl)

maybe_gc_miss :
    (l : TokenBucketLimiter) (key : String) (now : ℕ)
    → Valid l
    → lookup string_discrete key l.buckets ≡ none
    → let m = maybe_gc l now in
      (lookup string_discrete key m.buckets ≡ none)
      × (m.capacity ≡ l.capacity)
      × (m.refill_rate ≡ l.refill_rate)
unfolding maybe_gc
maybe_gc_miss l key now v miss =
    let gone : lookup string_discrete key (swept l now) ≡ none =
      lookup-delete_if string_discrete _ key l.buckets v.distinct ∙ rw miss in
    ground (arith, gone)

-- A key without a bucket is given a full one.
new_bucket :
    (l : TokenBucketLimiter) (key : String) (now : ℕ)
    → Valid l
    → lookup string_discrete key l.buckets ≡ none
    → let (l', b) = get_bucket l key now in
      (b ≡ full l now) × (l'.capacity ≡ l.capacity) × (l'.refill_rate ≡ l.refill_rate)
unfolding full
new_bucket l key now v miss =
    let (gone, capacity, rate) = maybe_gc_miss l key now v miss in
    rw (get_bucket_new l key now v miss, find_or_add_new (maybe_gc l now) key now gone)
      (ap (λ c. record { tokens = c; last = now }) capacity, capacity, rate)

full_takes :
    (l : TokenBucketLimiter) (n opened now : ℕ)
    → n ≤ l.capacity
    → (take_tokens l.capacity l.refill_rate (full l opened) n now).1 ≡ true
unfolding take_tokens refill full
full_takes l n opened now h = ground arith

new_key_takes :
    (l : TokenBucketLimiter) (key : String) (n opened now : ℕ)
    → Valid l
    → lookup string_discrete key l.buckets ≡ none
    → n ≤ l.capacity
    → (allow_n l key (pos n) opened now).1 ≡ true
unfolding allow_n
new_key_takes l key n opened now v miss h =
    let (b, capacity, rate) = new_bucket l key opened v miss in
    elim (Bool-cases (leb_ℤ (pos n) (pos 0))) [
      | inl few ↦ rw few
      | inr more ↦ rw more (rw (b, capacity, rate) (full_takes l n opened now h))
    ]

poor_refused :
    (l : TokenBucketLimiter) (b : Bucket) (now : ℕ)
    → b.last ≤ now
    → b.tokens + (now - b.last) / l.refill_rate < l.capacity
    → (take_tokens l.capacity l.refill_rate b l.capacity now).1 ≡ false
unfolding take_tokens refill
poor_refused l b now o h = rw (div-elapsed now b.last l.refill_rate o) (ground arith)

other_served :
    (l : TokenBucketLimiter) (key other : String) (b : Bucket) (m : ℤ) (now : ℕ)
    → Valid l
    → key ≢ other
    → lookup string_discrete other l.buckets ≡ none
    → lookup string_discrete key l.buckets ≡ some b
    → l.last_gc + l.gc_interval ≤ now
    → b.last + l.idle_timeout < now
    → leb_ℤ m (pos 0) ≡ false
    → let l' = (allow_n l other m now now).0 in
      (lookup string_discrete key l'.buckets ≡ none) × (l'.capacity ≡ l.capacity)
unfolding allow_n
other_served l key other b m now v ne miss held due old more =
    let (gone, capacity) = collected_bucket l key other b now v ne miss held due old in
    rw more (lookup-insert_ne string_discrete other key _ _ ne ∙ gone, capacity)

-- The collection forgets a debt that is not paid off. Take a key whose bucket was last refilled
-- longer than the idle timeout ago and would not grant a full burst now. If a collection is due,
-- then a request for any key that the limiter does not know makes it grant the full burst.
pub idle_debt_forgotten :
    (l : TokenBucketLimiter) (key other : String) (b : Bucket) (m : ℤ) (now : ℕ)
    → Valid l
    → key ≢ other
    → lookup string_discrete other l.buckets ≡ none
    → lookup string_discrete key l.buckets ≡ some b
    → l.last_gc + l.gc_interval ≤ now
    → b.last + l.idle_timeout < now
    → b.tokens + (now - b.last) / l.refill_rate < l.capacity
    → pos 1 ≤ℤ m
    → ((allow_n l key (pos l.capacity) now now).1 ≡ false)
      × ((allow_n (allow_n l other m now now).0 key (pos l.capacity) now now).1 ≡ true)
idle_debt_forgotten l key other b m now v ne miss held due old poor p =
    let few : leb_ℤ (pos l.capacity) (pos 0) ≡ false = ground (arith, v.capacity) in
    let more : leb_ℤ m (pos 0) ≡ false = ground arith in
    let l' = (allow_n l other m now now).0 in
    let s = other_served l key other b m now v ne miss held due old more in
    (
      rw (allow_n_held l key b (pos l.capacity) now now held, few)
          (poor_refused l b now (omega arith) poor),
      new_key_takes l' key l.capacity now now (allow_n-Valid l other m now now (omega arith) v) s.0
          (omega (arith, s.1)),
    )
