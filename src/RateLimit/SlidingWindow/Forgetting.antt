-- ===== src/RateLimit/SlidingWindow/Forgetting.antt =====
-- What the collection of idle entries does to a window that is longer than the idle timeout.
use go_libs.Common.{
  to_ℕ, int_limit, ℕ, ◌+◌, ◌≤◌, ◌<◌, ◌≡◌, ◌≢◌, refl, true, false, none, some, String, arith, ℤ, pos,
  leb_ℤ, ◌≤ℤ◌, lookup, insert, string_discrete, lookup-insert_ne, lookup-delete_if, Distinct,
  delete_if, ◌∙◌, Bool-cases, inl, inr, Float, IsIeee, exact_limit,
}
use go_libs.RateLimit.SlidingWindow.{
  Entry, SlidingWindowLimiter, idle, init_defaults, maybe_gc, find_or_add, truncate, weighted,
  estimated_count, count_request, get_entry, allow_n,
}
use go_libs.RateLimit.SlidingWindow.Quota.{weighted_bounds, advance_same, allow_n_held, sum_kept}

-- The settings that the constructor leaves, and a map without repeated keys.
pub record Valid (l : SlidingWindowLimiter) : Type 0 where
  pub limit : 0 < l.limit
  pub window : 0 < l.window
  pub interval : 0 < l.gc_interval
  pub timeout : 0 < l.idle_timeout
  pub collected : 0 < l.last_gc
  pub distinct : Distinct string_discrete l.windows

init_defaults_same : (l : SlidingWindowLimiter) (now : ℕ) → Valid l → init_defaults l now ≡ l
unfolding init_defaults
init_defaults_same l now v = ground arith

abbrev swept : SlidingWindowLimiter → ℕ → SlidingWindowLimiter
swept l now = record l { windows = delete_if (idle l.idle_timeout now) l.windows; last_gc = now }

maybe_gc_due :
    (l : SlidingWindowLimiter) (now : ℕ)
    → l.last_gc + l.gc_interval ≤ now
    → maybe_gc l now ≡ swept l now
unfolding maybe_gc
maybe_gc_due l now due = ground arith

fresh : SlidingWindowLimiter → ℕ → Entry
fresh l now = record {
  curr_window_start = truncate now l.window;
  curr_count = pos 0;
  prev_count = pos 0;
}

find_or_add_new :
    (l : SlidingWindowLimiter) (key : String) (now : ℕ)
    → lookup string_discrete key l.windows ≡ none
    → find_or_add l key now
      ≡ (record l { windows = insert string_discrete key (fresh l now) l.windows }, fresh l now)
unfolding find_or_add fresh
find_or_add_new l key now miss = rw (miss, find_or_add)

-- The look-up of an unknown key at a time when a collection is due.
get_entry_due :
    (l : SlidingWindowLimiter) (key : String) (now : ℕ)
    → Valid l
    → lookup string_discrete key l.windows ≡ none
    → l.last_gc + l.gc_interval ≤ now
    → get_entry l key now ≡ (
      record (swept l now) {
        windows = insert string_discrete key (fresh l now) (swept l now).windows;
      },
      fresh l now,
    )
unfolding get_entry fresh
get_entry_due l key now v miss due =
    let gone : lookup string_discrete key (swept l now).windows ≡ none =
      lookup-delete_if string_discrete _ key l.windows v.distinct ∙ rw miss in
    rw (
      miss,
      get_entry,
      init_defaults_same l now v,
      maybe_gc_due l now due,
      find_or_add_new (swept l now) key now gone,
    )

maybe_gc_recent :
    (l : SlidingWindowLimiter) (now : ℕ) → l.last_gc ≡ now → 0 < l.gc_interval → maybe_gc l now ≡ l
unfolding maybe_gc
maybe_gc_recent l now e p = ground arith

settings_same :
    (l : SlidingWindowLimiter) (now : ℕ)
    → 0 < l.limit
    → 0 < l.window
    → 0 < l.gc_interval
    → 0 < l.idle_timeout
    → 0 < l.last_gc
    → init_defaults l now ≡ l
unfolding init_defaults
settings_same l now a b c d g = ground arith

module _ (f : Float) where
  -- After a request of `other`, the key is unknown and no second collection is due.
  record Forgotten (l l' : SlidingWindowLimiter) (key : String) (now : ℕ) : Type 0 where
    gone : lookup string_discrete key l'.windows ≡ none
    limit : l'.limit ≡ l.limit
    window : l'.window ≡ l.window
    recent : l'.last_gc ≡ now
    interval : l'.gc_interval ≡ l.gc_interval
    timeout : l'.idle_timeout ≡ l.idle_timeout

  other_served :
      (l : SlidingWindowLimiter) (key other : String) (e : Entry) (m : ℤ) (now : ℕ)
      → Valid l
      → key ≢ other
      → lookup string_discrete other l.windows ≡ none
      → lookup string_discrete key l.windows ≡ some e
      → l.last_gc + l.gc_interval ≤ now
      → e.curr_window_start + l.idle_timeout < now
      → leb_ℤ m (pos 0) ≡ false
      → Forgotten l (allow_n f l other m now now).0 key now
  unfolding allow_n
  other_served l key other e m now v ne miss held due old more =
      let dead : idle l.idle_timeout now e ≡ true = ground arith in
      let gone : lookup string_discrete key (swept l now).windows ≡ none =
        lookup-delete_if string_discrete _ key l.windows v.distinct ∙ rw (held, dead) in
      rw (more, get_entry_due l other now v miss due)
        (record {
          gone =
              lookup-insert_ne string_discrete other key _ _ ne
              ∙ lookup-insert_ne string_discrete other key _ _ ne
              ∙ gone;
          limit = refl;
          window = refl;
          recent = refl;
          interval = refl;
          timeout = refl;
        })

  -- A fresh entry admits up to the limit.
  fresh_takes :
      (l : SlidingWindowLimiter) (n now : ℕ)
      → IsIeee f
      → 0 < l.window
      → n ≤ l.limit
      → n < int_limit
      → (count_request f l.limit l.window (fresh l now) (pos n) now).1 ≡ true
  unfolding count_request estimated_count fresh
  fresh_takes l n now ieee w h small =
      let e = fresh l now in
      let (k, is_k, low, high) =
        weighted_bounds f ieee e now l.window 0 0 w refl refl (omega arith) in
      let asked =
        sum_kept (f.to_int (weighted f e now l.window)) k (pos n) is_k (omega arith)
          (omega (arith, high, small)) in
      rw (advance_same e now l.window refl) (rw asked (ground (arith, high, h)))

  -- A key that is unknown right after a collection is given an empty window.
  unknown_takes :
      (l l' : SlidingWindowLimiter) (key : String) (n now : ℕ)
      → IsIeee f
      → Valid l
      → 0 < now
      → Forgotten l l' key now
      → n ≤ l.limit
      → n < int_limit
      → (allow_n f l' key (pos n) now now).1 ≡ true
  unfolding allow_n get_entry
  unknown_takes l l' key n now ieee v p k h small = elim (Bool-cases (leb_ℤ (pos n) (pos 0))) [
    | inl few ↦ rw few
    | inr more ↦
        let same =
          settings_same l' now (omega (arith, v.limit, k.limit)) (omega (arith, v.window, k.window))
            (omega (arith, v.interval, k.interval)) (omega (arith, v.timeout, k.timeout))
            (omega (arith, k.recent)) in
        let idle_now = maybe_gc_recent l' now k.recent (omega (arith, v.interval, k.interval)) in
        rw (more, k.gone, get_entry, same, idle_now, find_or_add_new l' key now k.gone)
          (fresh_takes l' n now ieee (omega (arith, v.window, k.window)) (omega (arith, k.limit))
            small)
  ]

  full_refuses :
      (limit window : ℕ) (e : Entry) (n : ℤ) (now p : ℕ)
      → IsIeee f
      → 0 < window
      → limit + limit ≤ exact_limit
      → truncate now window ≡ e.curr_window_start
      → e.curr_count ≡ pos limit
      → e.prev_count ≡ pos p
      → p ≤ limit
      → pos 1 ≤ℤ n
      → limit + limit + to_ℕ n < int_limit
      → (count_request f limit window e n now).1 ≡ false
  unfolding count_request estimated_count
  full_refuses limit window e n now p ieee w b t c is_p q one small =
      let (k, is_k, low, high) =
        weighted_bounds f ieee e now window p limit w is_p c (omega arith) in
      let asked =
        sum_kept (f.to_int (weighted f e now window)) k n is_k (ground (arith, one))
          (omega (arith, high, small, q)) in
      rw (advance_same e now window t) (rw asked (ground (arith, low, one)))

  -- The collection forgets a window that is not over. Take a key that has used up its limit in the
  -- current window, which began longer than the idle timeout ago: no request of it is granted, however many
  -- it asks for below 2^63 less twice the limit. If a collection is due, then a request for any key that the limiter does
  -- not know makes it grant the whole limit again, in the same window.
  pub open_window_forgotten :
      (l : SlidingWindowLimiter) (key other : String) (e : Entry) (m n : ℤ) (now p : ℕ)
      → IsIeee f
      → Valid l
      → l.limit + l.limit ≤ exact_limit
      → key ≢ other
      → lookup string_discrete other l.windows ≡ none
      → lookup string_discrete key l.windows ≡ some e
      → l.last_gc + l.gc_interval ≤ now
      → truncate now l.window ≡ e.curr_window_start
      → e.curr_window_start + l.idle_timeout < now
      → e.curr_count ≡ pos l.limit
      → e.prev_count ≡ pos p
      → p ≤ l.limit
      → pos 1 ≤ℤ m
      → pos 1 ≤ℤ n
      → l.limit + l.limit + to_ℕ n < int_limit
      → ((allow_n f l key n now now).1 ≡ false)
        × ((allow_n f (allow_n f l other m now now).0 key (pos l.limit) now now).1 ≡ true)
  open_window_forgotten l key other e m n now p ieee v b ne miss held due t old full is_p prev one
        asks small =
      let more : leb_ℤ m (pos 0) ≡ false = ground arith in
      let some_asked : leb_ℤ n (pos 0) ≡ false = ground (arith, asks) in
      let served = other_served l key other e m now v ne miss held due old more in
      (
        rw (allow_n_held f l key e n now now held, some_asked)
            (full_refuses l.limit l.window e n now p ieee v.window b t full is_p prev asks small),
        unknown_takes l _ key l.limit now ieee v (omega arith) served (omega arith) (omega arith),
      )
