-- ===== src/Lib.antt =====
-- Models of parts of go-libs, a Go library of building blocks for services, and theorems on them.
-- The parts modelled are those that keep state or decide: the circuit breakers, the rate
-- limiters with their HTTP middleware, the idempotency store with its own, the caches, the resilient
-- HTTP transport, the worker pool, the state machine, the permission engine, the retry loop, and the helpers for
-- pages, slices and maps.
--
-- Conventions. A method that runs under one mutex is one function from the object's record to the
-- record and the results. A clock reading is a number of nanoseconds and an argument. Go's maps are
-- association lists (Common/Maps.antt) and texts are native strings. `int` and `time.Duration` are
-- integers without a bound (Common/Int.antt), but for Pagination.antt, the counts of RateLimit/SlidingWindow.antt and the
-- linear waits of Retry.antt and HttpClient.antt, where they wrap around at 64 bits. `float64` is a parameter with named laws of IEEE 754 (Common/Ieee.antt), and an error is a
-- value of any type.
--
-- CircuitBreaker.antt is circuitbreaker/circuitbreaker.go: states and options.
-- CircuitBreaker/Consecutive.antt is circuitbreaker/consecutive.go: canExecute, recordResult, onPanic and
-- transition are `can_execute`, `record_result`, `on_panic` and `transition`; a callback is a value
-- that they return, and `execute` is Execute as one caller runs it. CircuitBreaker/Ratio.antt is
-- circuitbreaker/ratio.go in the same way; evaluateRatio is `evaluate_ratio`, and its loop is
-- `prune`. In the two files Concurrent.antt the critical sections of any number of callers
-- interleave, as a step relation that counts the calls in flight.
--
-- RateLimit/TokenBucket.antt and RateLimit/SlidingWindow.antt are ratelimit/token_bucket.go and
-- ratelimit/sliding_window.go: AllowN is `allow_n`, Remaining is `remaining`, the collection of idle
-- keys is `maybe_gc`. A call takes one clock reading for the look-up and one for the update. That a
-- caller holds a bucket while another collects it is not modelled.
-- RateLimit/RealIp.antt is ratelimit/realip.go, with the functions of net and strings as the fields of
-- `NetLib`: RealIP is `real_ip` and the backward loop of parseXFF is `scan_back`.
-- RateLimit/Middleware.antt is ratelimit/ratelimit.go and ratelimit/limiter.go: the handlers of New and
-- NewWithLimiter are `serve` and `serve_with_limiter`, which look up the key by `real_ip` or a key function.
-- RateLimit/Postgres.antt is db/ratelimit.go: the table of windows is an association list that all replicas share, the query
-- of AllowNWithContext is `upsert`, one function on the table, and `Run` says whether the database answered or failed, with the
-- statement applied or not. The readings are the times as the table stores them.
--
-- Cache/Chain.antt is the doubly linked list of cache/lru.go and cache/fifo.go, on a heap: a node is an
-- address, and `heap`, `head` and `tail` are what the pointers reach. Cache/Linked.antt has what the two backends
-- share, with the fields of lruBackend and one function for each stretch of the code;
-- Cache/Lru.antt and Cache/Fifo.antt have their own Get and Set, Cache/Fetch.antt GetOrFetch. Cache/Lfu.antt is
-- cache/lfu.go: a bucket is the ends of a chain on the heap that all share, with its length. Cache/Policy.antt
-- is the specification, a list of entries, Linked/Represents.antt relates the two, and
-- Linked/Traces.antt runs any sequence of calls of a backend that fills the interface `Backed`.
--
-- Cache/Sampled.antt is the map of cache/cache.go under the policy EvictionSampledLRU, with Get, Delete, Len and the sweep of
-- startEviction, and Sampled/Sampling.antt chooses and evicts the victim: findSampledEvictionCandidate and
-- findFallbackEvictionCandidate are `find_sampled_candidate` and `find_fallback_candidate`, whose loops run on the entries in
-- the order of sync.Map.Range, the parameter `RangeOrder`, of which only the law is used that a visit sees the entries of
-- the map. The loop of evictIfNeeded runs on fuel, one turn more than there are entries, which is enough
-- since each turn removes one. Cache/Typed.antt is TypedCache, which passes each call on to the backend of its policy.
--
-- HttpClient.antt is httpclient/roundtripper.go: executeRetries is `execute_retries`, its loop `retry_loop` runs on the
-- number of attempts left, and a `Turn` is what the wrapped transport, the contexts and the timer do in one
-- of its turns. HttpClient/Transport.antt is RoundTrip with its rate limiter, an instance of the interface
-- `Limiter` of the middleware, and its breaker, `execute` of CircuitBreaker/Consecutive.antt. The other files there
-- are for proofs: Attempts and Answers on the loop, Requests and Layers on what RoundTrip makes of it.
--
-- WorkerPool.antt is workerpool/workerpool.go, with one function per critical section, and
-- WorkerPool/Concurrent.antt interleaves callers, workers and Stop as a step relation. Fsm.antt is fsm/fsm.go.
--
-- Idempotency.antt is idempotency/store.go; Idempotency/Memory.antt is idempotency/memory.go, with
-- one function per method, and Memory/Calls.antt is any sequence of calls of them;
-- Idempotency/Middleware.antt is idempotency/middleware.go over the interface `Store`, which
-- Middleware/Replays.antt fills with a `MemoryStore`. The wrapped handler is the list of its calls on the
-- writer, and whether it panics. Functions of net/http and strings are parameters. Middleware/Sent.antt reads off a list of
-- calls on the writer what the client gets, which Middleware/Repeats.antt compares between two requests; `IsHeaderMap` has the
-- laws of http.Header that this needs.
-- Idempotency/Postgres.antt is idempotency/postgres.go: a statement is one function on the rows, Lock is `pg_lock`, and what other
-- callers run between two of its statements is a parameter. It starts again when the row goes between two statements, so it
-- runs on fuel; where no one deletes the row, one attempt is enough. What the columns keep of a time (TIMESTAMPTZ, to the
-- microsecond) and of the headers (JSONB) is the parameter `Columns`. In Postgres/Leases.antt the statements of any calls interleave.
--
-- Rbac.antt is rbac/engine.go. Pagination.antt is pagination/pagination.go and pagination/slice.go.
-- SliceUtil.antt is sliceutil/sliceutil.go and maputil/maputil.go; the loop of Chunk runs on fuel,
-- and the length of the slice is enough, since each turn takes at least one element.
--
-- Retry.antt is retry/retry.go: doInternal is `do_internal`, whose loop runs on the number of attempts left, and
-- computeWait is `compute_wait`.
--
-- Common.antt passes on what all share. The files under Examples run the models at concrete inputs.
--
-- Not modelled: the fake clock and the shutdown hooks; callers of GetOrFetch that share a flight; calls of a
-- TypedCache on keys of different stripes that interleave; a task of the worker pool that runs for ever; that the transport
-- cancels the contexts it has made when it returns; the adapters to gin, net/http, the logger,
-- metrics, tracing and the database, which are input and output or calls of other libraries; examples,
-- scripts and deployment files.
pub mod Cache
pub mod CircuitBreaker
pub mod Common
pub mod Examples
pub mod Fsm
pub mod Http
pub mod HttpClient
pub mod Idempotency
pub mod Pagination
pub mod RateLimit
pub mod Rbac
pub mod Retry
pub mod SliceUtil
pub mod WorkerPool
