-- ===== src/Idempotency/Postgres.antt =====
-- idempotency/postgres.go: the store whose records are rows of a PostgreSQL table that all replicas share. A statement is
-- one function on the rows, since PostgreSQL runs it as a whole; between two statements of a call others may run.
pub mod Leases
pub mod Saved
use go_libs.Common.{
  ℕ, zero, suc, ◌+◌, ◌==◌, Bool, true, false, ◌&&◌, Option, none, some, ◌⊎◌, inl, inr, String, List,
  [], ◌∷◌, if◌then◌else◌, ltb, str_eq, lookup, insert, delete, string_discrete,
}
use go_libs.Idempotency.{Response, Status, in_progress, completed, Record, LockResult}

-- The columns that are read; `headers` is empty for NULL.
pub record Row : Type 0 where
  pub status : Status
  pub status_code : Option ℕ
  pub headers : List ℕ
  pub body : List ℕ
  pub locked_until : ℕ
  pub expires_at : ℕ

abbrev pub Rows : Type 0
Rows = List (String × Row)

pub record PgStore : Type 0 where
  pub lock_ttl : ℕ
  pub response_ttl : ℕ

abbrev pub new_row : (locked_until expires_at : ℕ) → Row
new_row locked_until expires_at = record {
  status = in_progress;
  status_code = none;
  headers = [];
  body = [];
  locked_until = locked_until;
  expires_at = expires_at;
}

-- How the columns keep what is written: TIMESTAMPTZ a time, in whole microseconds, and JSONB some JSON, whose bytes may
-- come back in another layout. A value that has been read is kept as it is when it is written or compared again.
pub record Columns : Type 0 where
  pub stamp : ℕ → ℕ
  pub jsonb : List ℕ → List ℕ

-- The row that `Lock` writes at the reading `now`.
abbrev pub lease_row : Columns → PgStore → ℕ → Row
lease_row col s now = new_row (col.stamp (now + s.lock_ttl)) (col.stamp (now + s.response_ttl))

abbrev pub is_in_progress : Row → Bool
is_in_progress row = elim row.status [ in_progress ↦ true | completed ↦ false ]

-- `INSERT ... ON CONFLICT (key) DO NOTHING`, and whether a row was affected.
unfoldable pub insert_row : Rows → String → Row → Rows × Bool
insert_row rows key new = elim (lookup string_discrete key rows) [
  | some row ↦ (rows, false)
  | none ↦ (insert string_discrete key new rows, true)
]

-- The first update of `tryReclaimExpired`, with its test: `seen` is the `expires_at` that was read.
unfoldable pub reclaim_row : Rows → String → (now seen : ℕ) → Row → Rows × Bool
reclaim_row rows key now seen new = elim (lookup string_discrete key rows) [
  | none ↦ (rows, false)
  | some row ↦
      if ltb seen now && row.expires_at == seen
      then (insert string_discrete key new rows, true)
      else (rows, false)
]

-- The second update: `seen` is the `locked_until` that was read.
unfoldable pub reclaim_lease : Rows → String → (now seen : ℕ) → Row → Rows × Bool
reclaim_lease rows key now seen new = elim (lookup string_discrete key rows) [
  | none ↦ (rows, false)
  | some row ↦
      if ltb seen now && is_in_progress row && row.locked_until == seen
      then (let row' : Row = record row {
        locked_until = new.locked_until;
        expires_at = new.expires_at;
      } in
          (insert string_discrete key row' rows, true))
      else (rows, false)
]

unfoldable pub unlock_row : Rows → String → Rows
unlock_row rows key = elim (lookup string_discrete key rows) [
  | none ↦ rows
  | some row ↦ if is_in_progress row then delete string_discrete key rows else rows
]

-- A statement of a call: `others i` is what runs before its statement `i`, and `errs i` the error that the driver gives
-- instead of running it.
unfoldable pub exec :
    {E : Type 0}
    → (ℕ → Rows → Rows)
    → (ℕ → Option E)
    → ℕ
    → (Rows → Rows × Bool)
    → Rows
    → Rows × (Bool ⊎ E)
exec others errs i statement rows = elim (errs i) [
  | some e ↦ (others i rows, inr e)
  | none ↦ let (rows', affected) = statement (others i rows) in (rows', inl affected)
]

abbrev pub succeeded : {E : Type 0} → Bool ⊎ E → Bool
succeeded (inl affected) = affected
succeeded (inr e) = false

-- `encode` and `decode` are encoding/json on headers.
module _ {E : Type 0} (col : Columns) (encode : List (String × List String) → List ℕ ⊎ E)
    (decode : List ℕ → Option (List (String × List String))) where
  unfoldable pub build_record_from_row : Row → Record
  build_record_from_row row = record {
    status = row.status;
    response = elim row.status_code [
      | none ↦ none
      | some code ↦
          if is_in_progress row
          then none
          else some (record {
            status_code = code;
            headers = elim row.headers [
              | [] ↦ []
              | b ∷ bs ↦ elim (decode row.headers) [ none ↦ [] | some h ↦ h ]
            ];
            body = row.body;
          })
    ];
  }

  -- `clock i` is the reading of an attempt whose first statement is `i`.
  module _ (others : ℕ → Rows → Rows) (errs : ℕ → Option E) (clock : ℕ → ℕ) (empty_key : E)
      (s : PgStore) (key : String) where
    -- An update whose test fails in Go is not sent, so that nothing runs before it.
    unfoldable pub try_reclaim_expired : (i now : ℕ) → Row → Row → Rows → Rows × Bool
    try_reclaim_expired i now row new rows =
        let (rows₁, first) =
          if ltb row.expires_at now
          then exec others errs i (λ r. reclaim_row r key now row.expires_at new) rows
          else (rows, inl false) in
        let (rows₂, second) =
          if is_in_progress row && ltb row.locked_until now
          then exec others errs (suc i) (λ r. reclaim_lease r key now row.locked_until new) rows₁
          else (rows₁, inl false) in
        if succeeded first then (rows₁, true) else (rows₂, succeeded second)

    unfoldable pub after_conflict : (i now : ℕ) → Row → Row → Rows → Rows × Option (LockResult E)
    after_conflict i now row new rows =
        let (rows', reclaimed) = try_reclaim_expired i now row new rows in
        if reclaimed then (rows', some (record { exists = false; found = none; err = none })) else (
          rows',
          some (record { exists = true; found = some (build_record_from_row row); err = none }),
        )

    -- `Lock` on a key that is not empty. A row that goes between the insertion and the reading makes it start again; it is
    -- `none` when `fuel` attempts do not do.
    unfoldable pub lock_loop : (fuel i : ℕ) → Rows → Rows × Option (LockResult E)
    lock_loop zero i rows = (rows, none)
    lock_loop (suc fuel) i rows =
        let now = clock i in
        let new = lease_row col s now in
        let (rows₁, inserted) = exec others errs i (λ r. insert_row r key new) rows in
        let rows₂ = others (suc i) rows₁ in
        elim inserted [
          | inr e ↦ (rows₁, some (record { exists = false; found = none; err = some e }))
          | inl true ↦ (rows₁, some (record { exists = false; found = none; err = none }))
          | inl false ↦ elim (errs (suc i)) [
            | some e ↦ (rows₂, some (record { exists = false; found = none; err = some e }))
            | none ↦ elim (lookup string_discrete key rows₂) [
              | none ↦ lock_loop fuel (suc (suc i)) rows₂
              | some row ↦ after_conflict (suc (suc i)) now row new rows₂
            ]
          ]
        ]

    unfoldable pub pg_lock : ℕ → Rows → Rows × Option (LockResult E)
    pg_lock fuel rows =
        if str_eq key ""
        then (rows, some (record { exists = false; found = none; err = some empty_key }))
        else lock_loop fuel 0 rows

  module _ (empty_key : E) (s : PgStore) (key : String) where
    -- `Save`, `Unlock` and `Delete` are one statement each; `failed` is the error of the driver.
    unfoldable pub pg_save : Response → (now : ℕ) → (failed : Option E) → Rows → Rows × Option E
    pg_save response now failed rows =
        if str_eq key "" then (rows, some empty_key) else elim (encode response.headers) [
          | inr e ↦ (rows, some e)
          | inl headers ↦ elim failed [
            | some e ↦ (rows, some e)
            | none ↦ elim (lookup string_discrete key rows) [
              | none ↦ (rows, none)
              | some row ↦ (
                insert string_discrete key
                    (record row {
                      status = completed;
                      status_code = some response.status_code;
                      headers = col.jsonb headers;
                      body = response.body;
                      expires_at = col.stamp (now + s.response_ttl);
                    })
                    rows,
                none,
              )
            ]
          ]
        ]

    unfoldable pub pg_unlock : (failed : Option E) → Rows → Rows × Option E
    pg_unlock failed rows =
        if str_eq key ""
        then (rows, some empty_key)
        else elim failed [ some e ↦ (rows, some e) | none ↦ (unlock_row rows key, none) ]

    unfoldable pub pg_delete : (failed : Option E) → Rows → Rows × Option E
    pg_delete failed rows = if str_eq key "" then (rows, some empty_key) else elim failed [
      | some e ↦ (rows, some e)
      | none ↦ (delete string_discrete key rows, none)
    ]
