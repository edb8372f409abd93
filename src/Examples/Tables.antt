-- ===== src/Examples/Tables.antt =====
-- The tables of db/ratelimit.go and idempotency/postgres.go at concrete inputs: two tokens per window, and one key.
use go_libs.Common.{
  ◌-◌, ◌%◌, ℕ, ◌≡◌, ◌≤◌, ◌↔◌, refl, true, false, some, none, String, List, [], ◌∷◌, arith, ℤ, pos,
  ◌≤ℤ◌, lookup, insert, string_discrete, ◌⊎◌, inl, inr, Option,
}
use go_libs.Idempotency.{Response, completed}
use go_libs.Idempotency.Postgres.{Row, Columns, PgStore, new_row, pg_lock, pg_save}
use go_libs.Idempotency.Postgres.Leases.{
  Statement, inserts, renews, reclaims, run_statements, held_key_excluded,
}
use go_libs.Idempotency.Postgres.Saved.{pg_save-pg_lock}
use go_libs.RateLimit.Postgres.{
  Table, PgRateLimiter, answered, interval_of, upsert, upsert_row, after_run, pg_allow_n,
  pg_remaining,
}
use go_libs.RateLimit.Postgres.Span.{PgCall, run_pg_calls, granted_to, span_granted}
use go_libs.RateLimit.Postgres.Agreement.{pg_allow_n-pg_remaining, tiny_window_unlimited}

abbrev limiter : PgRateLimiter
limiter = record { table_name = "ratelimit_windows"; limit = 2; window = 1_000_000_000 }

abbrev call : ℤ → ℕ → PgCall
call n now = record { key = "a"; count = n; now = now; run = answered }

-- The third call finds the window full; the fourth starts a new one.
abbrev calls : List PgCall
calls = call (pos 1) 5 ∷ call (pos 1) 6 ∷ call (pos 1) 7 ∷ call (pos 2) 1_000_000_005 ∷ []

four_granted : (run_pg_calls limiter "a" [] calls).1 ≡ 4
unfolding run_pg_calls pg_allow_n after_run upsert upsert_row interval_of granted_to lookup insert
    string_discrete
four_granted = refl

abbrev used : Table
used = ("a", record { current_count = 1; window_start = 5 }) ∷ []

span_granted_example :
    (run_pg_calls limiter "a" used (call (pos 1) 900 ∷ call (pos 2) 1_000_000_100 ∷ [])).1 ≤ 4
unfolding lookup string_discrete interval_of
span_granted_example =
    span_granted limiter "a" used (call (pos 1) 900 ∷ call (pos 2) 1_000_000_100 ∷ []) 900
      1_000_000_100 (omega arith) ((omega arith, omega arith), ((omega arith, omega arith), tt))

pg_allow_n-pg_remaining_example :
    ((pg_allow_n limiter used "a" (pos 2) 9 answered).1 ≡ true)
    ↔ ((pos 1 ≤ℤ pos 2) × (pos 2 ≤ℤ pos (pg_remaining limiter used "a" 9 answered)))
unfolding interval_of
pg_allow_n-pg_remaining_example = pg_allow_n-pg_remaining limiter used "a" (pos 2) 9 refl refl

tiny_window_unlimited_example :
    (pg_allow_n
      (record limiter { window = 999_999 })
      (("a", record { current_count = 2; window_start = 5 }) ∷ [])
      "a"
      (pos 2)
      5
      answered).1
    ≡ true
unfolding lookup string_discrete
tiny_window_unlimited_example =
    tiny_window_unlimited (record limiter { window = 999_999 })
      (("a", record { current_count = 2; window_start = 5 }) ∷ []) "a" (pos 2) 5
      (record { current_count = 2; window_start = 5 }) (omega arith) refl (omega arith)
      (omega arith) refl (omega arith)

-- idempotency/postgres.go: a lease of 30 and a retention of 100 microseconds.
abbrev columns : Columns
columns = record { stamp = λ t. t - t % 1000; jsonb = λ json. json }

abbrev store : PgStore
store = record { lock_ttl = 30_000; response_ttl = 100_000 }

abbrev held : Row
held = new_row 40 110

-- One call has read the row before and takes its lease for expired, and two insert.
abbrev late : List Statement
late = inserts "k" 12 ∷ renews "k" 39 9 ∷ inserts "other" 20 ∷ reclaims "k" 40 39 ∷ []

held_there : lookup string_discrete "k" (("k", held) ∷ []) ≡ some held
unfolding lookup string_discrete
held_there = refl

held_key_excluded_example :
    ((run_statements columns store "k" (("k", held) ∷ []) late).1 ≡ false)
    × (lookup string_discrete "k" (run_statements columns store "k" (("k", held) ∷ []) late).0
        ≡ some held)
held_key_excluded_example =
    held_key_excluded columns store "k" held (("k", held) ∷ []) late held_there (
      (inr (omega arith), omega arith),
      (
        (inr (omega arith), omega arith),
        ((inr (omega arith), omega arith), ((inr (omega arith), omega arith), tt)),
      ),
    )

-- One header, which one byte stands for.
abbrev encode : List (String × List String) → List ℕ ⊎ ℕ
encode headers = inl (7 ∷ [])

abbrev decode : List ℕ → Option (List (String × List String))
decode bytes = some (("Retry-After", "1" ∷ []) ∷ [])

abbrev answer : Response
answer = record { status_code = 201; headers = ("Retry-After", "1" ∷ []) ∷ []; body = 5 ∷ [] }

pg_save-pg_lock_example :
    (pg_lock columns encode decode
      (λ i r. r)
      (λ i. none)
      (λ i. 90_000)
      0
      store
      "k"
      1
      (pg_save columns encode decode 0 store "k" answer 60 none (("k", held) ∷ [])).0).1
    ≡ some (record {
      exists = true;
      found = some (record { status = completed; response = some answer });
      err = none;
    })
pg_save-pg_lock_example =
    pg_save-pg_lock columns encode decode (λ i r. r) (λ i. 90_000) 0 store "k" 0 (("k", held) ∷ [])
      held answer 60 (7 ∷ []) 7 []
      (record { not_after = λ t. omega arith; near = λ t. grind arith }) refl (λ i r. refl) refl
      refl refl held_there (omega arith)
