-- ===== src/RateLimit/TokenBucket.antt =====
-- ratelimit/token_bucket.go: `TokenBucketLimiter`. The constructor makes `capacity` and the
-- durations positive, so they are natural numbers. A method takes two clock readings: `opened` of
-- the section under `l.mu` and `now` of the section under the bucket's mutex.
pub mod Budget
pub mod Collection
pub mod Forgetting
pub mod Sharing
use go_libs.Common.{
  ℕ, ◌+◌, ◌-◌, ◌*◌, ◌<◌, Bool, true, false, Option, none, some, String, List, [], ◌∷◌,
  if◌then◌else◌, ltb, leb, ◌==◌, ℤ, pos, ◌+ℤ◌, leb_ℤ, ltb_ℤ, to_ℕ, div_ℤ, sub_time, lookup, insert,
  delete, delete_if, string_discrete,
}

pub record Bucket : Type 0 where
  pub tokens : ℕ
  pub last : ℕ

pub record TokenBucketLimiter : Type 0 where
  pub buckets : List (String × Bucket)
  pub capacity : ℕ
  pub refill_rate : ℕ
  pub last_gc : ℕ
  pub gc_interval : ℕ
  pub idle_timeout : ℕ

abbrev pub second : ℕ
second = 1_000_000_000

abbrev pub five_minutes : ℕ
five_minutes = 300_000_000_000

unfoldable pub new_token_bucket : ℤ → ℤ → ℕ → TokenBucketLimiter
new_token_bucket capacity refill_rate now = record {
  buckets = [];
  capacity = if leb_ℤ capacity (pos 0) then 1 else to_ℕ capacity;
  refill_rate = if leb_ℤ refill_rate (pos 0) then second else to_ℕ refill_rate;
  last_gc = now;
  gc_interval = five_minutes;
  idle_timeout = five_minutes;
}

-- The defaults of a limiter that the constructor did not make. `last_gc` is zero only there.
unfoldable pub init_defaults : TokenBucketLimiter → ℕ → TokenBucketLimiter
init_defaults l now = record l {
  capacity = if l.capacity == 0 then 1 else l.capacity;
  refill_rate = if l.refill_rate == 0 then second else l.refill_rate;
  gc_interval = if l.gc_interval == 0 then five_minutes else l.gc_interval;
  idle_timeout = if l.idle_timeout == 0 then five_minutes else l.idle_timeout;
  last_gc = if l.last_gc == 0 then now else l.last_gc;
}

-- The test in the loop of `maybeGC`: `last` is before `now - idleTimeout`.
abbrev pub idle : ℕ → ℕ → Bucket → Bool
idle idle_timeout now b = ltb (b.last + idle_timeout) now

unfoldable pub maybe_gc : TokenBucketLimiter → ℕ → TokenBucketLimiter
maybe_gc l now =
    if ltb_ℤ (sub_time now l.last_gc) (pos l.gc_interval)
    then l
    else record l { buckets = delete_if (idle l.idle_timeout now) l.buckets; last_gc = now }

-- The part of `getBucket` after the write lock: it looks again, and adds a full bucket.
unfoldable pub find_or_add : TokenBucketLimiter → String → ℕ → TokenBucketLimiter × Bucket
find_or_add l key now = elim (lookup string_discrete key l.buckets) [
  | some b ↦ (l, b)
  | none ↦
      let b : Bucket = record { tokens = l.capacity; last = now } in
      (record l { buckets = insert string_discrete key b l.buckets }, b)
]

unfoldable pub get_bucket : TokenBucketLimiter → String → ℕ → TokenBucketLimiter × Bucket
get_bucket l key now = elim (lookup string_discrete key l.buckets) [
  | some b ↦ (l, b)
  | none ↦ find_or_add (maybe_gc (init_defaults l now) now) key now
]

-- The refill of `AllowN`, from the elapsed time.
unfoldable pub refill : ℕ → ℕ → Bucket → ℕ → Bucket
refill capacity rate b now =
    let n = div_ℤ (sub_time now b.last) rate in
    if ltb_ℤ (pos 0) n
    then (if leb capacity (b.tokens + to_ℕ n)
        then record { tokens = capacity; last = now }
        else record { tokens = b.tokens + to_ℕ n; last = b.last + to_ℕ n * rate })
    else b

-- `AllowN` under the bucket's mutex, for `n` above 0.
unfoldable pub take_tokens : ℕ → ℕ → Bucket → ℕ → ℕ → Bucket × Bool
unfolding refill
take_tokens capacity rate b n now =
    let c = refill capacity rate b now in
    if ltb c.tokens n then (c, false) else (record c { tokens = c.tokens - n }, true)

-- The mutex section writes the bucket that the map holds.
abbrev store : TokenBucketLimiter → String → Bucket × Bool → TokenBucketLimiter × Bool
store l key (b, ok) = (record l { buckets = insert string_discrete key b l.buckets }, ok)

unfoldable pub allow_n :
    TokenBucketLimiter → String → ℤ → (opened now : ℕ) → TokenBucketLimiter × Bool
allow_n l key n opened now =
    if leb_ℤ n (pos 0)
    then (l, true)
    else (let (l', b) = get_bucket l key opened in
        store l' key (take_tokens l'.capacity l'.refill_rate b (to_ℕ n) now))

unfoldable pub allow : TokenBucketLimiter → String → (opened now : ℕ) → TokenBucketLimiter × Bool
allow l key opened now = allow_n l key (pos 1) opened now

-- `min(b.tokens + refill, capacity)` on integers: the refill is negative if the clock went back.
unfoldable pub remaining_in : ℕ → ℕ → Bucket → ℕ → ℤ
remaining_in capacity rate b now =
    let tokens = pos b.tokens +ℤ div_ℤ (sub_time now b.last) rate in
    if ltb_ℤ (pos capacity) tokens then pos capacity else tokens

unfoldable pub remaining : TokenBucketLimiter → String → (opened now : ℕ) → TokenBucketLimiter × ℤ
remaining l key opened now =
    let (l', b) = get_bucket l key opened in (l', remaining_in l'.capacity l'.refill_rate b now)

unfoldable pub reset : TokenBucketLimiter → String → TokenBucketLimiter
reset l key = record l { buckets = delete string_discrete key l.buckets }
