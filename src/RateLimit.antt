-- ===== src/RateLimit.antt =====
-- ratelimit: the limiters behind the HTTP middleware. A clock reading is a number of nanoseconds.
-- A limiter keeps its entries in a map from keys; a call of one method runs as a whole.
pub mod TokenBucket
pub mod SlidingWindow
pub mod RealIp
pub mod Middleware
pub mod Postgres
