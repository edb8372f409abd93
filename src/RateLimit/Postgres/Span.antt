-- ===== src/RateLimit/Postgres/Span.antt =====
-- What the replicas that share a table grant to a key, for the limiter of db/ratelimit.go.
use go_libs.Common.{
  ℕ, ◌+◌, ◌-◌, ◌*◌, ◌≤◌, ◌<◌, ◌≡◌, ◌≢◌, Bool, true, false, ◌||◌, Option, none, some, inl, inr,
  String, List, [], ◌∷◌, if◌then◌else◌, leb, str_eq, ℤ, pos, to_ℕ, leb_ℤ, ltb_ℤ, lookup,
  string_discrete, lookup-insert_self, lookup-insert_ne, All, arith, ite, if_neg, Bool-cases,
  Option-cases,
}
use go_libs.RateLimit.Postgres.{
  WindowRow, Table, PgRateLimiter, Run, answered, failed, interval_of, upsert_row, upsert,
  after_run, pg_allow_n,
}

-- One call of `AllowN`, of any replica and on any key.
pub record PgCall : Type 0 where
  pub key : String
  pub count : ℤ
  pub now : ℕ
  pub run : Run

-- The tokens of a call that was allowed for the key `q`.
unfoldable pub granted_to : String → String → ℕ → Bool → ℕ
granted_to q key n allowed = ite (string_discrete q key) (if allowed then n else 0) 0

granted_to_le : (q key : String) (n : ℕ) (allowed : Bool) → granted_to q key n allowed ≤ n
unfolding granted_to
granted_to_le q key n allowed = ground arith

granted_to_refused : (q key : String) (n : ℕ) → granted_to q key n false ≡ 0
unfolding granted_to
granted_to_refused q key n = ground arith

granted_to_other :
    (q key : String) (n : ℕ) (allowed : Bool) → q ≢ key → granted_to q key n allowed ≡ 0
unfolding granted_to
granted_to_other q key n allowed p = if_neg (string_discrete q key) p (if allowed then n else 0) 0

-- The table after the calls, and the tokens granted to `q`.
unfoldable pub run_pg_calls : PgRateLimiter → String → Table → List PgCall → Table × ℕ
run_pg_calls l q t [] = (t, 0)
run_pg_calls l q t (c ∷ cs) =
    let (t', allowed) = pg_allow_n l t c.key c.count c.now c.run in
    let (t'', rest) = run_pg_calls l q t' cs in
    (t'', granted_to q c.key (to_ℕ c.count) allowed + rest)

-- The tokens that a row leaves up to `end`, where it may be renewed once before.
unfoldable pub room : (limit interval end : ℕ) → Option WindowRow → ℕ
room limit interval end none = limit
room limit interval end (some r) =
    if leb (r.window_start + interval) end
    then (limit - r.current_count) + limit
    else limit - r.current_count

-- The call's reading lies in a span that is shorter than the interval.
abbrev pub InSpan : (first end : ℕ) → PgCall → Type 0
InSpan first end c = (first ≤ c.now) × (c.now ≤ end)

-- What a statement writes pays for the tokens that it may grant.
abbrev pub Paid :
    (limit interval end : ℕ) → Option WindowRow → ℕ → Option (WindowRow × Bool) → Type 0
Paid limit interval end row n none = Unit
Paid limit interval end row n (some (r, allowed)) =
    n + room limit interval end (some r) ≤ room limit interval end row

upsert_row-Paid :
    (limit interval first end : ℕ) (row : Option WindowRow) (n now : ℕ)
    → n ≤ limit
    → first ≤ now
    → now ≤ end
    → end < first + interval
    → Paid limit interval end row n (upsert_row limit interval row n now)
unfolding upsert_row room
upsert_row-Paid limit interval first end none n now h a b s = ground arith
upsert_row-Paid limit interval first end (some old) n now h a b s =
    elim (Bool-cases (leb (old.window_start + interval) now)) [
      | inl e ↦ rw (e, upsert_row) (ground arith)
      | inr e ↦ elim (Bool-cases (leb (old.current_count + n) limit)) [
        | inl f ↦ rw (e, upsert_row) (rw f (ground arith))
        | inr f ↦ rw (e, upsert_row) (rw f tt)
      ]
    ]

abbrev pub row_of : String → Table → Option WindowRow
row_of q t = lookup string_discrete q t

upsert-room :
    (limit interval first end : ℕ) (t : Table) (q key : String) (n now : ℕ)
    → n ≤ limit
    → first ≤ now
    → now ≤ end
    → end < first + interval
    → let (t', allowed) = upsert limit interval t key n now in
      (granted_to q key n allowed + room limit interval end (row_of q t')
        ≤ room limit interval end (row_of q t))
      × (room limit interval end (row_of q t') ≤ room limit interval end (row_of q t))
unfolding upsert
upsert-room limit interval first end t q key n now h a b s =
    let paid = upsert_row-Paid limit interval first end (row_of key t) n now h a b s in
    elim (Option-cases (upsert_row limit interval (row_of key t) n now)) [
      | inl e ↦ rw (e, upsert) (rw (granted_to_refused q key n) (omega arith, omega arith))
      | inr ((r, allowed), e) ↦ elim (string_discrete q key) [
        | yes p ↦
            let paid' : n + room limit interval end (some r)
                ≤ room limit interval end (row_of key t) =
              rw e at paid in
            rw (e, upsert)
              (rw (p, lookup-insert_self string_discrete key r t)
                (omega (arith, paid', granted_to_le key key n allowed), omega (arith, paid')))
        | no p ↦
            rw (e, upsert)
              (rw (granted_to_other q key n allowed p, lookup-insert_ne string_discrete key q r t p)
                (omega arith, omega arith))
      ]
    ]

-- What a call leaves of the tokens of `q`.
abbrev Spends : (limit interval end : ℕ) → Table → String → String → ℕ → Table × Bool → Type 0
Spends limit interval end t q key n (t', allowed) =
    granted_to q key n allowed + room limit interval end (row_of q t')
    ≤ room limit interval end (row_of q t)

pg_allow_n-Spends :
    (l : PgRateLimiter) (t : Table) (q : String) (c : PgCall) (first end : ℕ)
    → first ≤ c.now
    → c.now ≤ end
    → end < first + interval_of l.window
    → Spends l.limit
        (interval_of l.window)
        end
        t
        q
        c.key
        (to_ℕ c.count)
        (pg_allow_n l t c.key c.count c.now c.run)
unfolding pg_allow_n after_run
pg_allow_n-Spends l t q c first end a b s =
    let interval = interval_of l.window in
    let n = to_ℕ c.count in
    let none_granted = granted_to_refused q c.key n in
    elim (Bool-cases (str_eq c.key "" || leb_ℤ c.count (pos 0) || ltb_ℤ (pos l.limit) c.count)) [
      | inl e ↦ rw (e, pg_allow_n) (rw none_granted (omega arith))
      | inr e ↦
          let fits : n ≤ l.limit = ground arith in
          let (spent, kept) = upsert-room l.limit interval first end t q c.key n c.now fits a b s in
          rw (e, pg_allow_n)
            (elim c.run
              as (λ r.
                Spends l.limit interval end t q c.key n
                  (after_run r t (upsert l.limit interval t c.key n c.now))) [
                    | answered ↦ spent
                    | failed true ↦ rw none_granted (omega (arith, kept))
                    | failed false ↦ rw none_granted (omega arith)
                  ])
    ]

run_pg_calls-room :
    (l : PgRateLimiter) (q : String) (t : Table) (cs : List PgCall) (first end : ℕ)
    → end < first + interval_of l.window
    → All (InSpan first end) cs
    → (run_pg_calls l q t cs).1 ≤ room l.limit (interval_of l.window) end (row_of q t)
unfolding run_pg_calls
run_pg_calls-room l q t [] first end s a = omega arith
run_pg_calls-room l q t (c ∷ cs) first end s (b, a) =
    let paid = pg_allow_n-Spends l t q c first end b.0 b.1 s in
    omega (
      arith,
      paid,
      run_pg_calls-room l q (pg_allow_n l t c.key c.count c.now c.run).0 cs first end s a,
    )

-- The limit, twice if the key has a row already, whose window may end within the span.
abbrev pub span_limit : ℕ → Option WindowRow → ℕ
span_limit limit none = limit
span_limit limit (some r) = 2 * limit

room-le :
    (limit interval end : ℕ) (row : Option WindowRow)
    → room limit interval end row ≤ span_limit limit row
unfolding room
room-le limit interval end none = omega arith
room-le limit interval end (some r) = ground arith

-- Replicas that share a table and a configuration grant a key at most the limit within any span that is shorter
-- than the interval of the query if the key has no row at first, and at most twice the limit if it has one,
-- whatever the table holds, whichever keys the calls are on and however their statements end.
pub span_granted :
    (l : PgRateLimiter) (q : String) (t : Table) (cs : List PgCall) (first end : ℕ)
    → end < first + interval_of l.window
    → All (InSpan first end) cs
    → (run_pg_calls l q t cs).1 ≤ span_limit l.limit (lookup string_discrete q t)
span_granted l q t cs first end s a = omega (
  arith,
  run_pg_calls-room l q t cs first end s a,
  room-le l.limit (interval_of l.window) end (lookup string_discrete q t),
)
