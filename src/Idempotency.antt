-- ===== src/Idempotency.antt =====
-- idempotency/store.go: the records of the two-phase protocol, and what a store answers.
pub mod Memory
pub mod Middleware
pub mod Postgres
use go_libs.Common.{ℕ, String, List, Option, Bool}

pub record Response : Type 0 where
  pub status_code : ℕ
  pub headers : List (String × List String)
  pub body : List ℕ

pub data Status : Type 0 where
  in_progress completed : Status

pub record Record : Type 0 where
  pub status : Status
  pub response : Option Response

-- What `Lock` returns: `exists`, the record and the error.
pub record LockResult (E : Type 0) : Type 0 where
  pub exists : Bool
  pub found : Option Record
  pub err : Option E
