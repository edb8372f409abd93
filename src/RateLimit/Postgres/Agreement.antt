-- ===== src/RateLimit/Postgres/Agreement.antt =====
-- `AllowN` and `Remaining` of db/ratelimit.go on one row, and windows that the interval of the query cuts off.
use go_libs.Common.{
  ℕ, ◌+◌, ◌≤◌, ◌<◌, ◌≡◌, ◌↔◌, refl, Bool, true, false, ◌||◌, Option, none, some, inl, inr, String,
  leb, str_eq, ℤ, pos, to_ℕ, ◌≤ℤ◌, leb_ℤ, ltb_ℤ, lookup, string_discrete, arith, Bool-cases,
  Option-cases,
}
use go_libs.RateLimit.Postgres.{
  WindowRow, Table, PgRateLimiter, answered, interval_of, upsert_row, upsert, after_run, pg_allow_n,
  remaining_row, pg_remaining,
}

-- Whether a statement grants the tokens.
abbrev grants : Option (WindowRow × Bool) → Bool
grants none = false
grants (some (r, allowed)) = allowed

grants-upsert :
    (limit interval : ℕ) (t : Table) (key : String) (n now : ℕ)
    → (upsert limit interval t key n now).1
      ≡ grants (upsert_row limit interval (lookup string_discrete key t) n now)
unfolding upsert
grants-upsert limit interval t key n now =
    elim (Option-cases (upsert_row limit interval (lookup string_discrete key t) n now)) [
      | inl e ↦ rw (e, upsert) refl
      | inr (r, e) ↦ rw (e, upsert) refl
    ]

grants-pg_allow_n :
    (l : PgRateLimiter) (t : Table) (key : String) (n : ℤ) (now : ℕ)
    → str_eq key "" ≡ false
    → pos 1 ≤ℤ n
    → n ≤ℤ pos l.limit
    → (pg_allow_n l t key n now answered).1
      ≡ grants
          (upsert_row l.limit (interval_of l.window) (lookup string_discrete key t) (to_ℕ n) now)
unfolding pg_allow_n after_run
grants-pg_allow_n l t key n now k a b =
    let low : leb_ℤ n (pos 0) ≡ false = ground arith in
    let high : ltb_ℤ (pos l.limit) n ≡ false = ground arith in
    rw (k, pg_allow_n)
      (rw low (rw high (grants-upsert l.limit (interval_of l.window) t key (to_ℕ n) now)))

row_grants :
    (l : PgRateLimiter) (row : Option WindowRow) (n now : ℕ)
    → interval_of l.window ≡ l.window
    → n ≤ l.limit
    → 1 ≤ n
    → (grants (upsert_row l.limit (interval_of l.window) row n now) ≡ true)
      ↔ (n ≤ remaining_row l row now)
unfolding upsert_row remaining_row
row_grants l none n now w h p = ground arith
row_grants l (some r) n now w h p = elim (Bool-cases (leb (r.window_start + l.window) now)) [
  | inl e ↦ rw (w, e) (ground arith)
  | inr e ↦ elim (Bool-cases (leb (r.current_count + n) l.limit)) [
    | inl f ↦ rw (w, e) (rw f (ground arith))
    | inr f ↦ rw (w, e) (rw f (ground arith))
  ]
]

remaining_row-le :
    (l : PgRateLimiter) (row : Option WindowRow) (now : ℕ) → remaining_row l row now ≤ l.limit
unfolding remaining_row
remaining_row-le l none now = omega arith
remaining_row-le l (some r) now = ground arith

refused_outside :
    (l : PgRateLimiter) (t : Table) (key : String) (n : ℤ) (now : ℕ)
    → (leb_ℤ n (pos 0) || ltb_ℤ (pos l.limit) n) ≡ true
    → (pg_allow_n l t key n now answered).1 ≡ false
unfolding pg_allow_n
refused_outside l t key n now h = elim (Bool-cases (str_eq key "")) [
  | inl k ↦ rw (k, pg_allow_n) refl
  | inr k ↦ rw (k, pg_allow_n) (rw h refl)
]

-- If the window is one that the query takes over unchanged, then a call of `AllowN` that the database answers is granted
-- exactly if it asks for at least one token and at most as many as `Remaining` reports at the same time.
pub pg_allow_n-pg_remaining :
    (l : PgRateLimiter) (t : Table) (key : String) (n : ℤ) (now : ℕ)
    → str_eq key "" ≡ false
    → interval_of l.window ≡ l.window
    → ((pg_allow_n l t key n now answered).1 ≡ true)
      ↔ ((pos 1 ≤ℤ n) × (n ≤ℤ pos (pg_remaining l t key now answered)))
unfolding pg_remaining
pg_allow_n-pg_remaining l t key n now k w =
    let m = remaining_row l (lookup string_discrete key t) now in
    let small : m ≤ l.limit = remaining_row-le l (lookup string_discrete key t) now in
    rw k (elim (Bool-cases (leb_ℤ n (pos 0) || ltb_ℤ (pos l.limit) n)) [
      | inl out ↦
          rw (refused_outside l t key n now out)
            (λ x. cc x, λ x. absurd (ground (arith, out, x.0, x.1, small)))
      | inr fits ↦
          let low : pos 1 ≤ℤ n = ground (arith, fits) in
          let high : n ≤ℤ pos l.limit = ground (arith, fits) in
          let above : 1 ≤ to_ℕ n = ground (arith, low) in
          let below : to_ℕ n ≤ l.limit = ground (arith, high) in
          let (there, back) =
            row_grants l (lookup string_discrete key t) (to_ℕ n) now w below above in
          rw (grants-pg_allow_n l t key n now k low high)
            (λ x. (low, ground (arith, there x)), λ x. back (ground (arith, x.0, x.1)))
    ])

-- A limiter with a window below a millisecond limits nothing: a call that the database answers is granted whatever its
-- key has had, if it asks for no more than the limit and its reading is not before that of the row.
pub tiny_window_unlimited :
    (l : PgRateLimiter) (t : Table) (key : String) (n : ℤ) (now : ℕ) (r : WindowRow)
    → l.window < 1_000_000
    → str_eq key "" ≡ false
    → pos 1 ≤ℤ n
    → n ≤ℤ pos l.limit
    → lookup string_discrete key t ≡ some r
    → r.window_start ≤ now
    → (pg_allow_n l t key n now answered).1 ≡ true
unfolding interval_of upsert_row
tiny_window_unlimited l t key n now r w k a b row o =
    let whole : interval_of l.window ≡ 0 = ground (arith, w) in
    rw (grants-pg_allow_n l t key n now k a b, row) (rw whole (ground arith))
