-- ===== src/Http.antt =====
-- The calls of net/http that the handlers of ratelimit and idempotency make.
use go_libs.Common.{ℕ, String, List}

-- A call on a `ResponseWriter` or on its headers.
pub data Write : Type 0 where
  set_header : String → String → Write
  add_header : String → String → Write
  write_header : ℕ → Write
  write_body : List ℕ → Write
