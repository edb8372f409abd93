-- ===== src/Idempotency/Postgres/Leases.antt =====
-- Who gets a key of idempotency/postgres.go while someone holds it: any interleaving of the statements that calls make.
use go_libs.Common.{
  ℕ, ◌≤◌, ◌≡◌, ◌≢◌, refl, ◌∙◌, subst, Bool, false, ◌&&◌, ◌==◌, some, inl, inr, String, List, [],
  ◌∷◌, ltb, lookup, string_discrete, lookup-insert_ne, arith, Bool-cases, Option-cases, All, ◌||◌,
  ◌⊎◌, ite, if_neg,
}
use go_libs.Idempotency.{completed}
use go_libs.Idempotency.Postgres.{
  Row, Rows, PgStore, Columns, lease_row, is_in_progress, insert_row, reclaim_row, reclaim_lease,
}

-- The statements of `Lock`, with the reading of its call and what the call has read of the row before.
pub data Statement : Type 0 where
  inserts : (key : String) → (now : ℕ) → Statement
  reclaims : (key : String) → (now seen : ℕ) → Statement
  renews : (key : String) → (now seen : ℕ) → Statement

abbrev pub run_statement : Columns → PgStore → Rows → Statement → Rows × Bool
run_statement col s rows (inserts key now) = insert_row rows key (lease_row col s now)
run_statement col s rows (reclaims key now seen) =
    reclaim_row rows key now seen (lease_row col s now)
run_statement col s rows (renews key now seen) =
    reclaim_lease rows key now seen (lease_row col s now)

abbrev pub key_of : Statement → String
key_of (inserts key now) = key
key_of (reclaims key now seen) = key
key_of (renews key now seen) = key

abbrev pub reading_of : Statement → ℕ
reading_of (inserts key now) = now
reading_of (reclaims key now seen) = now
reading_of (renews key now seen) = now

-- A statement on the key `key` took the key `q`.
unfoldable pub takes : String → String → Bool → Bool
takes q key affected = ite (string_discrete q key) affected false

takes_refused : (q key : String) → takes q key false ≡ false
unfolding takes
takes_refused q key = ground arith

takes_other : (q key : String) (affected : Bool) → q ≢ key → takes q key affected ≡ false
unfolding takes
takes_other q key affected p = if_neg (string_discrete q key) p affected false

-- The rows after the statements, and whether one of those on the key `q` took it.
unfoldable pub run_statements : Columns → PgStore → String → Rows → List Statement → Rows × Bool
run_statements col s q rows [] = (rows, false)
run_statements col s q rows (x ∷ xs) =
    let (rows', affected) = run_statement col s rows x in
    let (rows'', taken) = run_statements col s q rows' xs in
    (rows'', takes q (key_of x) affected || taken)

-- The reading is before the end of the record, and of the lease if the record is not completed.
abbrev pub BeforeEnd : Row → Statement → Type 0
BeforeEnd row x =
    ((row.status ≡ completed) ⊎ (reading_of x ≤ row.locked_until)) × (reading_of x ≤ row.expires_at)

same_key_refused :
    (col : Columns) (s : PgStore) (rows : Rows) (row : Row) (x : Statement)
    → lookup string_discrete (key_of x) rows ≡ some row
    → BeforeEnd row x
    → run_statement col s rows x ≡ (rows, false)
unfolding insert_row reclaim_row reclaim_lease
same_key_refused col s rows row (inserts key now) e b = rw (e, insert_row) refl
same_key_refused col s rows row (reclaims key now seen) e b =
    rw (e, reclaim_row) (ground (arith, b.1))
same_key_refused col s rows row (renews key now seen) e b = elim b.0 [
  | inl c ↦ rw (e, reclaim_lease) (rw c (ground arith))
  | inr h ↦ rw (e, reclaim_lease) (ground (arith, h))
]

other_key_kept :
    (col : Columns) (s : PgStore) (rows : Rows) (q : String) (x : Statement)
    → q ≢ key_of x
    → lookup string_discrete q (run_statement col s rows x).0 ≡ lookup string_discrete q rows
unfolding insert_row reclaim_row reclaim_lease
other_key_kept col s rows q (inserts key now) p =
    elim (Option-cases (lookup string_discrete key rows)) [
      | inl e ↦ rw (e, insert_row) (lookup-insert_ne string_discrete key q _ rows p)
      | inr (row, e) ↦ rw (e, insert_row) refl
    ]
other_key_kept col s rows q (reclaims key now seen) p =
    elim (Option-cases (lookup string_discrete key rows)) [
      | inl e ↦ rw (e, reclaim_row) refl
      | inr (row, e) ↦ elim (Bool-cases (ltb seen now && row.expires_at == seen)) [
        | inl f ↦ rw (e, reclaim_row) (rw f (lookup-insert_ne string_discrete key q _ rows p))
        | inr f ↦ rw (e, reclaim_row) (rw f refl)
      ]
    ]
other_key_kept col s rows q (renews key now seen) p =
    elim (Option-cases (lookup string_discrete key rows)) [
      | inl e ↦ rw (e, reclaim_lease) refl
      | inr (row, e) ↦
          elim (Bool-cases (ltb seen now && is_in_progress row && row.locked_until == seen)) [
            | inl f ↦ rw (e, reclaim_lease) (rw f (lookup-insert_ne string_discrete key q _ rows p))
            | inr f ↦ rw (e, reclaim_lease) (rw f refl)
          ]
    ]

-- While the record of a key lasts, and its lease if it is not completed, no interleaving of the statements of any `Lock` calls, on whatever keys and
-- with whatever they have read before, gives the key to another call or changes its row.
pub held_key_excluded :
    (col : Columns) (s : PgStore) (q : String) (row : Row) (rows : Rows) (xs : List Statement)
    → lookup string_discrete q rows ≡ some row
    → All (BeforeEnd row) xs
    → ((run_statements col s q rows xs).1 ≡ false)
      × (lookup string_discrete q (run_statements col s q rows xs).0 ≡ some row)
unfolding run_statements
held_key_excluded col s q row rows [] e a = (refl, e)
held_key_excluded col s q row rows (x ∷ xs) e (b, a) = elim (string_discrete q (key_of x)) [
  | yes p ↦
      let none_taken =
        same_key_refused col s rows row x
          (subst (λ k. lookup string_discrete k rows ≡ some row) p e) b in
      rw (none_taken, takes_refused q (key_of x)) (held_key_excluded col s q row rows xs e a)
  | no p ↦ rw (takes_other q (key_of x) (run_statement col s rows x).1 p) (
      held_key_excluded col s q row (run_statement col s rows x).0 xs
        (other_key_kept col s rows q x p ∙ e) a)
]
