-- ===== src/Idempotency/Middleware/Repeats.antt =====
-- That a repeated request of idempotency/middleware.go gets what the first one got.
use go_libs.Common.{List}
