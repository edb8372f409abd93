-- ===== src/RateLimit/Postgres.antt =====
-- db/ratelimit.go: the limiter whose windows are rows of a PostgreSQL table that all replicas share. A statement is one
-- function on the table, since PostgreSQL runs it as a whole; `Run` says how the call of the driver ends.
pub mod Span
pub mod Agreement
use go_libs.Common.{
  ℕ, ◌+◌, ◌-◌, ◌*◌, ◌/◌, ◌==◌, Bool, true, false, ◌&&◌, ◌||◌, Option, none, some, String, List,
  if◌then◌else◌, leb, ltb, str_eq, ℤ, pos, to_ℕ, default_ℤ, leb_ℤ, ltb_ℤ, lookup, insert, delete,
  string_discrete,
}

pub record WindowRow : Type 0 where
  pub current_count : ℕ
  pub window_start : ℕ

-- The columns `current_count` and `window_start` by `key`.
abbrev pub Table : Type 0
Table = List (String × WindowRow)

pub record PgRateLimiter : Type 0 where
  pub table_name : String
  pub limit : ℕ
  pub window : ℕ

-- The driver answers, or it gives an error; the statement may have taken effect even so.
pub data Run : Type 0 where
  answered : Run
  failed : (applied : Bool) → Run

-- `is_name` is what the regular expression for table names matches.
unfoldable pub new_pg_rate_limiter :
    (String → Bool) → (limit window : ℤ) → String → Option PgRateLimiter
new_pg_rate_limiter is_name limit window table_name =
    if is_name table_name
    then some (record {
      table_name = table_name;
      limit = to_ℕ (default_ℤ limit (pos 1));
      window = to_ℕ (default_ℤ window (pos 60_000_000_000));
    })
    else none

-- The interval `$4` in nanoseconds: whole seconds, or whole milliseconds below a second. That
-- `int(l.window.Seconds())` drops the fraction is exact up to 2^23 seconds, which `float64` carries to the nanosecond.
unfoldable pub interval_of : ℕ → ℕ
interval_of window =
    if ltb window 1_000_000_000
    then window / 1_000_000 * 1_000_000
    else window / 1_000_000_000 * 1_000_000_000

-- The row that the statement writes, and what it returns. It does neither if the key has a row for which `WHERE` fails.
unfoldable pub upsert_row :
    (limit interval : ℕ) → Option WindowRow → (n now : ℕ) → Option (WindowRow × Bool)
upsert_row limit interval none n now = some (record { current_count = n; window_start = now }, true)
upsert_row limit interval (some r) n now =
    let renew = leb (r.window_start + interval) now in
    let r' : WindowRow = record {
      current_count = if renew then n else r.current_count + n;
      window_start = if renew then now else r.window_start;
    } in
    if renew || leb (r.current_count + n) limit
    then some (r', r'.window_start == now || leb r'.current_count limit)
    else none

unfoldable pub upsert : (limit interval : ℕ) → Table → String → (n now : ℕ) → Table × Bool
upsert limit interval t key n now =
    elim (upsert_row limit interval (lookup string_discrete key t) n now) [
      | none ↦ (t, false)
      | some (r, allowed) ↦ (insert string_discrete key r t, allowed)
    ]

unfoldable pub after_run : Run → Table → Table × Bool → Table × Bool
after_run answered t done = done
after_run (failed true) t done = (done.0, false)
after_run (failed false) t done = (t, false)

-- `AllowNWithContext`; `now` is the clock reading as the table stores it.
unfoldable pub pg_allow_n : PgRateLimiter → Table → String → ℤ → (now : ℕ) → Run → Table × Bool
pg_allow_n l t key n now run =
    if str_eq key "" || leb_ℤ n (pos 0) || ltb_ℤ (pos l.limit) n
    then (t, false)
    else after_run run t (upsert l.limit (interval_of l.window) t key (to_ℕ n) now)

unfoldable pub pg_allow : PgRateLimiter → Table → String → (now : ℕ) → Run → Table × Bool
pg_allow l t key now run = pg_allow_n l t key (pos 1) now run

unfoldable pub remaining_row : PgRateLimiter → Option WindowRow → ℕ → ℕ
remaining_row l none now = l.limit
remaining_row l (some r) now =
    if leb (r.window_start + l.window) now then l.limit else l.limit - r.current_count

unfoldable pub pg_remaining : PgRateLimiter → Table → String → (now : ℕ) → Run → ℕ
pg_remaining l t key now run = if str_eq key "" then 0 else elim run [
  | answered ↦ remaining_row l (lookup string_discrete key t) now
  | failed applied ↦ 0
]

unfoldable pub pg_reset : Table → String → Run → Table
pg_reset t key run = if str_eq key "" then t else elim run [
  | answered ↦ delete string_discrete key t
  | failed applied ↦ if applied then delete string_discrete key t else t
]
