-- ===== src/Idempotency/Postgres/Saved.antt =====
-- `Save` and then `Lock` of idempotency/postgres.go.
use go_libs.Common.{
  ℕ, suc, ◌+◌, ◌≤◌, ◌<◌, ◌≡◌, refl, ◌∙◌, true, false, Option, none, some, ◌⊎◌, inl, String, List,
  ◌∷◌, ltb, str_eq, lookup, insert, string_discrete, lookup-insert_self, arith,
}
use go_libs.Idempotency.{Response, completed}
use go_libs.Idempotency.Postgres.{
  Row, Rows, PgStore, Columns, lease_row, insert_row, build_record_from_row, exec,
  try_reclaim_expired, after_conflict, lock_loop, pg_lock, pg_save,
}

-- What runs between the statements of a call leaves the row of the key.
abbrev pub Keeps : String → (ℕ → Rows → Rows) → Type 0
Keeps key others =
    (i : ℕ) (rows : Rows)
    → lookup string_discrete key (others i rows) ≡ lookup string_discrete key rows

insertion_refused :
    {E : Type 0} (others : ℕ → Rows → Rows) (key : String) (new : Row) (rows : Rows) (row : Row)
    → lookup string_discrete key (others 0 rows) ≡ some row
    → exec {E = E} others (λ i. none) 0 (λ r. insert_row r key new) rows
      ≡ (others 0 rows, inl false)
unfolding exec insert_row
insertion_refused others key new rows row held = rw (held, insert_row) refl

-- `stamp` drops less than a microsecond.
pub record IsMicrosecond (col : Columns) : Type 0 where
  pub not_after : (t : ℕ) → col.stamp t ≤ t
  pub near : (t : ℕ) → t < col.stamp t + 1000

module _ {E : Type 0} (col : Columns) (encode : List (String × List String) → List ℕ ⊎ E)
    (decode : List ℕ → Option (List (String × List String))) where
  lock_completed :
      (others : ℕ → Rows → Rows) (clock : ℕ → ℕ) (empty_key : E) (s : PgStore) (key : String)
      (fuel : ℕ) (rows : Rows) (row : Row)
      → Keeps key others
      → lookup string_discrete key rows ≡ some row
      → row.status ≡ completed
      → clock 0 ≤ row.expires_at
      → (lock_loop col encode decode others (λ i. none) clock empty_key s key (suc fuel) 0 rows).1
        ≡ some (record {
          exists = true;
          found = some (build_record_from_row col encode decode row);
          err = none;
        })
  unfolding lock_loop after_conflict try_reclaim_expired
  lock_completed others clock empty_key s key fuel rows row kept held done live =
      let first : lookup string_discrete key (others 0 rows) ≡ some row = kept 0 rows ∙ held in
      let second : lookup string_discrete key (others 1 (others 0 rows)) ≡ some row =
        kept 1 (others 0 rows) ∙ first in
      let lasting : ltb row.expires_at (clock 0) ≡ false = ground arith in
      let new = lease_row col s (clock 0) in
      let tried = insertion_refused {E = E} others key new rows row first in
      rw (tried, lock_loop) (rw (tried, second) (rw (done, after_conflict) (rw lasting refl)))

  -- What `Save` stores in the row of a key, `Lock` answers to any call up to a microsecond before the end of the
  -- retention period, if the driver gives no error, what runs between its statements leaves the row, and what the
  -- JSONB column gives back for the encoded headers is not empty and decodes to them; it then takes one
  -- attempt. The column of the end keeps whole microseconds.
  pub pg_save-pg_lock :
      (others : ℕ → Rows → Rows) (clock : ℕ → ℕ) (empty_key : E) (s : PgStore) (key : String)
      (fuel : ℕ) (rows : Rows) (row : Row) (response : Response) (now : ℕ) (sent : List ℕ) (b : ℕ)
      (bs : List ℕ)
      → IsMicrosecond col
      → str_eq key "" ≡ false
      → Keeps key others
      → encode response.headers ≡ inl sent
      → col.jsonb sent ≡ b ∷ bs
      → decode (b ∷ bs) ≡ some response.headers
      → lookup string_discrete key rows ≡ some row
      → clock 0 + 1000 ≤ now + s.response_ttl
      → (pg_lock col encode decode others
          (λ i. none)
          clock
          empty_key
          s
          key
          (suc fuel)
          (pg_save col encode decode empty_key s key response now none rows).0).1
        ≡ some (record {
          exists = true;
          found = some (record { status = completed; response = some response });
          err = none;
        })
  unfolding pg_lock pg_save build_record_from_row
  pg_save-pg_lock others clock empty_key s key fuel rows row response now sent b bs micro k kept enc
        kept_json dec held live =
      let saved : Row = record row {
        status = completed;
        status_code = some response.status_code;
        headers = b ∷ bs;
        body = response.body;
        expires_at = col.stamp (now + s.response_ttl);
      } in
      let stored : (pg_save col encode decode empty_key s key response now none rows).0
          ≡ insert string_discrete key saved rows =
        rw (k, pg_save) (rw enc (rw (held, kept_json) refl)) in
      let there = lookup-insert_self string_discrete key saved rows in
      let answer =
        lock_completed others clock empty_key s key fuel (insert string_discrete key saved rows)
          saved kept there refl (omega (arith, micro.near (now + s.response_ttl), live)) in
      rw stored (rw (k, pg_lock) (answer ∙ rw dec refl))
