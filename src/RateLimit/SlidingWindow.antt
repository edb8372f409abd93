-- ===== src/RateLimit/SlidingWindow.antt =====
-- ratelimit/sliding_window.go: `SlidingWindowLimiter`. A clock reading counts the nanoseconds
-- since Go's zero time, from which `Truncate` counts its multiples. The constructor makes `limit`
-- and the durations positive, so they are natural numbers. The counts are `int`, and their sums wrap around. A method takes two clock readings:
-- `opened` of the section under `l.mu` and `now` of the section under the entry's mutex.
pub mod Quota
pub mod Forgetting
pub mod Overflow
use go_libs.Common.{
  ℕ, ◌+◌, ◌-◌, ◌%◌, ◌<◌, min, Bool, true, false, Option, none, some, String, List, [],
  if◌then◌else◌, ltb, ◌==◌, ℤ, pos, leb_ℤ, ltb_ℤ, to_ℕ, sub_time, lookup, insert, delete, delete_if,
  wrap, ◌+ℤ◌, ◌-ℤ◌, string_discrete, Float,
}

pub record Entry : Type 0 where
  pub curr_window_start : ℕ
  pub curr_count : ℤ
  pub prev_count : ℤ

pub record SlidingWindowLimiter : Type 0 where
  pub windows : List (String × Entry)
  pub limit : ℕ
  pub window : ℕ
  pub last_gc : ℕ
  pub gc_interval : ℕ
  pub idle_timeout : ℕ

abbrev pub minute : ℕ
minute = 60_000_000_000

abbrev pub five_minutes : ℕ
five_minutes = 300_000_000_000

unfoldable pub new_sliding_window : ℤ → ℤ → ℕ → SlidingWindowLimiter
new_sliding_window limit window now = record {
  windows = [];
  limit = if leb_ℤ limit (pos 0) then 1 else to_ℕ limit;
  window = if leb_ℤ window (pos 0) then minute else to_ℕ window;
  last_gc = now;
  gc_interval = five_minutes;
  idle_timeout = five_minutes;
}

-- The defaults of a limiter that the constructor did not make. `last_gc` is zero only there.
unfoldable pub init_defaults : SlidingWindowLimiter → ℕ → SlidingWindowLimiter
init_defaults l now = record l {
  limit = if l.limit == 0 then 1 else l.limit;
  window = if l.window == 0 then minute else l.window;
  gc_interval = if l.gc_interval == 0 then five_minutes else l.gc_interval;
  idle_timeout = if l.idle_timeout == 0 then five_minutes else l.idle_timeout;
  last_gc = if l.last_gc == 0 then now else l.last_gc;
}

-- The test in the loop of `maybeGC`: the window started before `now - idleTimeout`.
abbrev pub idle : ℕ → ℕ → Entry → Bool
idle idle_timeout now e = ltb (e.curr_window_start + idle_timeout) now

unfoldable pub maybe_gc : SlidingWindowLimiter → ℕ → SlidingWindowLimiter
maybe_gc l now =
    if ltb_ℤ (sub_time now l.last_gc) (pos l.gc_interval)
    then l
    else record l { windows = delete_if (idle l.idle_timeout now) l.windows; last_gc = now }

-- `t.Truncate(window)`.
abbrev pub truncate : ℕ → ℕ → ℕ
truncate t window = t - t % window

-- The part of `getEntry` after the write lock: it looks again, and adds an empty entry.
unfoldable pub find_or_add : SlidingWindowLimiter → String → ℕ → SlidingWindowLimiter × Entry
find_or_add l key now = elim (lookup string_discrete key l.windows) [
  | some e ↦ (l, e)
  | none ↦
      let e : Entry = record {
        curr_window_start = truncate now l.window;
        curr_count = pos 0;
        prev_count = pos 0;
      } in
      (record l { windows = insert string_discrete key e l.windows }, e)
]

unfoldable pub get_entry : SlidingWindowLimiter → String → ℕ → SlidingWindowLimiter × Entry
get_entry l key now = elim (lookup string_discrete key l.windows) [
  | some e ↦ (l, e)
  | none ↦ find_or_add (maybe_gc (init_defaults l now) now) key now
]

unfoldable pub advance : Entry → (now window : ℕ) → Entry
advance e now window =
    let current = truncate now window in
    if current == e.curr_window_start
    then e
    else if current == e.curr_window_start + window
    then record { curr_window_start = current; curr_count = pos 0; prev_count = e.curr_count }
    else if ltb (e.curr_window_start + window) current
    then record { curr_window_start = current; curr_count = pos 0; prev_count = pos 0 }
    else e

unfoldable pub reset : SlidingWindowLimiter → String → SlidingWindowLimiter
reset l key = record l { windows = delete string_discrete key l.windows }

-- The mutex section writes the entry that the map holds.
abbrev store : {A : Type 0} → SlidingWindowLimiter → String → Entry × A → SlidingWindowLimiter × A
store l key (e, a) = (record l { windows = insert string_discrete key e l.windows }, a)

module _ (f : Float) where
  -- `float64(prevCount)*prevWeight + float64(currCount)` of an entry that `advance` has brought up
  -- to date. `max(0, min(window, now - start))` is the subtraction that stops at 0.
  abbrev pub weighted : Entry → (now window : ℕ) → f.F
  weighted e now window =
      let time_in_current_window = min window (now - e.curr_window_start) in
      let prev_weight = f.div (f.of_nat (window - time_in_current_window)) (f.of_nat window) in
      f.add (f.mul (f.of_int e.prev_count) prev_weight) (f.of_int e.curr_count)

  -- The entry is advanced in place, so it is returned too.
  unfoldable pub estimated_count : Entry → (now window : ℕ) → Entry × f.F
  estimated_count e now window = let e' = advance e now window in (e', weighted e' now window)

  -- `AllowN` under the entry's mutex, for `n` above 0.
  unfoldable pub count_request : (limit window : ℕ) → Entry → (n : ℤ) → (now : ℕ) → Entry × Bool
  count_request limit window e n now =
      let (e', est) = estimated_count e now window in
      if ltb_ℤ (pos limit) (wrap (f.to_int est +ℤ n))
      then (e', false)
      else (record e' { curr_count = wrap (e'.curr_count +ℤ n) }, true)

  unfoldable pub allow_n :
      SlidingWindowLimiter → String → ℤ → (opened now : ℕ) → SlidingWindowLimiter × Bool
  allow_n l key n opened now =
      if leb_ℤ n (pos 0)
      then (l, true)
      else (let (l', e) = get_entry l key opened in
          store l' key (count_request l'.limit l'.window e n now))

  unfoldable pub allow :
      SlidingWindowLimiter → String → (opened now : ℕ) → SlidingWindowLimiter × Bool
  allow l key opened now = allow_n l key (pos 1) opened now

  -- `max(0, limit - int(est))`.
  unfoldable pub remaining :
      SlidingWindowLimiter → String → (opened now : ℕ) → SlidingWindowLimiter × ℤ
  remaining l key opened now =
      let (l', e) = get_entry l key opened in
      let (e', est) = estimated_count e now l'.window in
      store l' key (e', pos (to_ℕ (wrap (pos l'.limit -ℤ f.to_int est))))
