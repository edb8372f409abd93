-- ===== src/RateLimit/TokenBucket/Budget.antt =====
-- How many tokens a bucket gives out over time.
use go_libs.Common.{
  ℕ, ◌+◌, ◌-◌, ◌*◌, ◌/◌, ◌≤◌, ◌<◌, ◌≡◌, ◌↔◌, refl, Bool, true, false, some, String, List, [], ◌∷◌,
  if◌then◌else◌, arith, ℤ, pos, ◌+ℤ◌, leb_ℤ, ◌≤ℤ◌, to_ℕ, div_ℤ, sub_time, lookup, string_discrete,
  lookup-insert_self, sym, ap, ◌∙◌, Bool-cases, inl, inr,
}
use go_libs.RateLimit.TokenBucket.{
  Bucket, TokenBucketLimiter, refill, take_tokens, remaining_in, remaining, get_bucket, store,
  allow_n,
}

-- The time worth of a bucket at a clock reading: its tokens, and what has passed since `last`.
abbrev pub credit : ℕ → Bucket → ℕ → ℕ
credit rate b now = b.tokens * rate + (now - b.last)

abbrev pub granted : ℕ → Bool → ℕ
granted n true = n
granted n false = 0

pub div-elapsed :
    (now last rate : ℕ) → last ≤ now → div_ℤ (sub_time now last) rate ≡ pos ((now - last) / rate)
div-elapsed now last rate h = ground arith

div-mul-le : (n d : ℕ) → n / d * d ≤ n
div-mul-le n d = omega arith

mul_mono : (a b c : ℕ) → a ≤ b → a * c ≤ b * c
mul_mono a b c h = grind arith

pub add-mul : (a b c : ℕ) → (a + b) * c ≡ a * c + b * c
add-mul a b c = omega arith

-- What a refill does to a bucket, in natural numbers.
record Refilled (capacity rate : ℕ) (b c : Bucket) (now : ℕ) : Type 0 where
  order : c.last ≤ now
  bound : credit rate c now ≤ credit rate b now
  filled : c.tokens ≤ capacity
  exact : c.tokens < capacity → credit rate c now ≡ credit rate b now

refill-Refilled :
    (capacity rate : ℕ) (b : Bucket) (now : ℕ)
    → b.last ≤ now
    → b.tokens ≤ capacity
    → Refilled capacity rate b (refill capacity rate b now) now
unfolding refill
refill-Refilled cap rate b now h t =
    let q = (now - b.last) / rate in
    rw (div-elapsed now b.last rate h) (
      ground (
        arith,
        div-mul-le (now - b.last) rate,
        mul_mono cap (b.tokens + q) rate,
        add-mul b.tokens q rate,
      ))

-- One call of `AllowN` on a bucket.
record Taken (capacity rate : ℕ) (b c : Bucket) (n : ℕ) (ok : Bool) (now : ℕ) : Type 0 where
  order : c.last ≤ now
  filled : c.tokens ≤ capacity
  paid : granted n ok * rate + credit rate c now ≤ credit rate b now

sub-mul : (a b c : ℕ) → b ≤ a → b * c + (a - b) * c ≡ a * c
sub-mul a b c h = sym (add-mul b (a - b) c) ∙ ap (λ k. k * c) (omega arith)

take_tokens-Taken :
    (capacity rate : ℕ) (b : Bucket) (n now : ℕ)
    → b.last ≤ now
    → b.tokens ≤ capacity
    → let (c, ok) = take_tokens capacity rate b n now in Taken capacity rate b c n ok now
unfolding take_tokens
take_tokens-Taken cap rate b n now h t =
    let r = refill-Refilled cap rate b now h t in
    ground (arith, sub-mul (refill cap rate b now).tokens n rate)

-- One call of `AllowN(key, n)` with its clock readings.
pub record Call : Type 0 where
  pub count : ℤ
  pub opened : ℕ
  pub now : ℕ

-- The readings under the bucket's mutex do not go back, and none is after `end`.
abbrev pub Ordered : ℕ → List Call → ℕ → Type 0
Ordered t [] end = t ≤ end
Ordered t (c ∷ cs) end = (t ≤ c.now) × Ordered c.now cs end

-- The limiter after one call on a key that it has a bucket for.
pub record Allowed (l l' : TokenBucketLimiter) (key : String) (b : Bucket) (n : ℕ) (ok : Bool)
    (now : ℕ) : Type 0 where
  pub capacity : l'.capacity ≡ l.capacity
  pub rate : l'.refill_rate ≡ l.refill_rate
  pub bucket : Bucket
  pub held : lookup string_discrete key l'.buckets ≡ some bucket
  pub order : bucket.last ≤ now
  pub filled : bucket.tokens ≤ l.capacity
  pub paid :
      granted n ok * l.refill_rate + credit l.refill_rate bucket now ≤ credit l.refill_rate b now

pub allow_n_held :
    (l : TokenBucketLimiter) (key : String) (b : Bucket) (n : ℤ) (opened now : ℕ)
    → lookup string_discrete key l.buckets ≡ some b
    → allow_n l key n opened now ≡ (
        if leb_ℤ n (pos 0)
        then (l, true)
        else store l key (take_tokens l.capacity l.refill_rate b (to_ℕ n) now))
unfolding allow_n get_bucket
allow_n_held l key b n opened now e = rw (e, allow_n, get_bucket)

stored-Allowed :
    (l : TokenBucketLimiter) (key : String) (b : Bucket) (n now : ℕ) (r : Bucket × Bool)
    → Taken l.capacity l.refill_rate b r.0 n r.1 now
    → Allowed l (store l key r).0 key b n (store l key r).1 now
stored-Allowed l key b n now (c, ok) k = record {
  capacity = refl;
  rate = refl;
  bucket = c;
  held = lookup-insert_self string_discrete key c l.buckets;
  order = k.order;
  filled = k.filled;
  paid = k.paid;
}

pub allow_n-Allowed :
    (l : TokenBucketLimiter) (key : String) (b : Bucket) (c : Call)
    → lookup string_discrete key l.buckets ≡ some b
    → b.last ≤ c.now
    → b.tokens ≤ l.capacity
    → let (l', ok) = allow_n l key c.count c.opened c.now in
      Allowed l l' key b (to_ℕ c.count) ok c.now
allow_n-Allowed l key b c e h t =
    rw (allow_n_held l key b c.count c.opened c.now e) (elim (Bool-cases (leb_ℤ c.count (pos 0))) [
      | inl few ↦ rw few (record {
        capacity = refl;
        rate = refl;
        bucket = b;
        held = e;
        order = h;
        filled = t;
        paid = ground arith;
      })
      | inr more ↦ rw more (stored-Allowed l key b _ c.now _ (take_tokens-Taken _ _ b _ c.now h t))
    ])

pub le_of_Ordered : (t : ℕ) (cs : List Call) (end : ℕ) → Ordered t cs end → t ≤ end
le_of_Ordered t [] end h = h
le_of_Ordered t (c ∷ cs) end h = omega (arith, le_of_Ordered c.now cs end h.1)

pub Ordered-earlier :
    (s t : ℕ) (cs : List Call) (end : ℕ) → s ≤ t → Ordered t cs end → Ordered s cs end
Ordered-earlier s t [] end h o = omega arith
Ordered-earlier s t (c ∷ cs) end h o = (omega (arith, o.0), o.1)

taken-remaining :
    (capacity rate : ℕ) (b : Bucket) (n now : ℕ)
    → b.tokens ≤ capacity
    → b.last ≤ now
    → ((take_tokens capacity rate b n now).1 ≡ true) ↔ (pos n ≤ℤ remaining_in capacity rate b now)
unfolding take_tokens remaining_in ◌+ℤ◌
taken-remaining cap rate b n now t h =
    let e = div-elapsed now b.last rate h in rw e (ground arith, ground arith)

pub remaining_held :
    (l : TokenBucketLimiter) (key : String) (b : Bucket) (opened now : ℕ)
    → lookup string_discrete key l.buckets ≡ some b
    → (remaining l key opened now).1 ≡ remaining_in l.capacity l.refill_rate b now
unfolding remaining get_bucket
remaining_held l key b opened now e = rw (e, remaining, get_bucket)

-- `Remaining` at a clock reading is exact: where the clock has not gone back, `AllowN(key, n)` for
-- a positive `n` at the same reading succeeds if and only if `n` is at most the number that
-- `Remaining` gives, on every bucket within its capacity.
pub allow_n-remaining :
    (l : TokenBucketLimiter) (key : String) (b : Bucket) (n opened now : ℕ)
    → lookup string_discrete key l.buckets ≡ some b
    → b.tokens ≤ l.capacity
    → b.last ≤ now
    → 0 < n
    → ((allow_n l key (pos n) opened now).1 ≡ true) ↔ (pos n ≤ℤ (remaining l key opened now).1)
allow_n-remaining l key b n opened now e t h p =
    let k = taken-remaining l.capacity l.refill_rate b n now t h in
    let few : leb_ℤ (pos n) (pos 0) ≡ false = ground arith in
    rw (allow_n_held l key b (pos n) opened now e, remaining_held l key b opened now e, few) k
