-- ===== src/Idempotency/Middleware.antt =====
-- idempotency/middleware.go: the handler over any `Store`. Parameters: `trim_space` is
-- `strings.TrimSpace`, `to_upper` is `strings.ToUpper`, `bytes` is the conversion of a string to bytes, and
-- `header_map` gives what `Header()` of net/http holds after some calls of a `ResponseWriter`.
pub mod Replays
pub mod Sent
pub mod Repeats
use go_libs.Common.{
  ℕ, Bool, true, false, ◌&&◌, ◌||◌, not, Option, some, none, String, List, [], ◌∷◌, ◌++◌, map,
  if◌then◌else◌, ltb, leb, str_eq,
}
pub use go_libs.Http.{Write, set_header, add_header, write_header, write_body}
use go_libs.Idempotency.{Response, Status, in_progress, completed, Record, LockResult}

-- The `Store` interface. `C` is what a call reads besides its arguments: its context and the clock.
pub record Store (S C E : Type 0) : Type 0 where
  pub lock : S → C → String → S × LockResult E
  pub save : S → C → String → Response → S × Option E
  pub unlock : S → C → String → S × Option E

pub record MiddlewareOptions : Type 0 where
  pub header_name : String
  pub enforce_header : Bool
  pub ignored_methods : List String
  pub status_code_matcher : ℕ → Bool

unfoldable pub with_header_name : String → MiddlewareOptions → MiddlewareOptions
with_header_name header o = if str_eq header "" then o else record o { header_name = header }

unfoldable pub with_enforce_header : Bool → MiddlewareOptions → MiddlewareOptions
with_enforce_header enforce o = record o { enforce_header = enforce }

unfoldable pub with_ignored_methods :
    (String → String) → List String → MiddlewareOptions → MiddlewareOptions
with_ignored_methods to_upper methods o = record o { ignored_methods = map to_upper methods }

-- `none` stands for nil.
unfoldable pub with_status_code_matcher : Option (ℕ → Bool) → MiddlewareOptions → MiddlewareOptions
with_status_code_matcher none o = o
with_status_code_matcher (some matcher) o = record o { status_code_matcher = matcher }

-- The options that `Middleware` starts from, and those given, in order.
abbrev pub default_options : MiddlewareOptions
default_options = record {
  header_name = "Idempotency-Key";
  enforce_header = false;
  ignored_methods = "GET" ∷ "HEAD" ∷ "OPTIONS" ∷ [];
  status_code_matcher = λ code. leb 200 code && ltb code 500;
}

unfoldable pub configure :
    List (MiddlewareOptions → MiddlewareOptions) → MiddlewareOptions → MiddlewareOptions
configure [] o = o
configure (opt ∷ opts) o = configure opts (opt o)

pub record ResponseRecorder : Type 0 where
  pub status_code : ℕ
  pub body : List ℕ
  pub passed_on : List Write

abbrev pub new_recorder : ResponseRecorder
new_recorder = record { status_code = 200; body = []; passed_on = [] }

-- The recorder's `WriteHeader` and `Write`; its headers are those of the writer it wraps.
unfoldable pub record_write : ResponseRecorder → Write → ResponseRecorder
record_write rw (set_header k v) = record rw { passed_on = rw.passed_on ++ (set_header k v ∷ []) }
record_write rw (add_header k v) = record rw { passed_on = rw.passed_on ++ (add_header k v ∷ []) }
record_write rw (write_header code) = record rw {
  status_code = code;
  passed_on = rw.passed_on ++ (write_header code ∷ []);
}
record_write rw (write_body b) = record rw {
  body = rw.body ++ b;
  passed_on = rw.passed_on ++ (write_body b ∷ []);
}

unfoldable pub record_writes : ResponseRecorder → List Write → ResponseRecorder
record_writes rw [] = rw
record_writes rw (w ∷ ws) = record_writes (record_write rw w) ws

pub record Request : Type 0 where
  pub method : String
  pub header : String → String

-- What the wrapped handler does with its writer, and whether it panics then.
pub record Run : Type 0 where
  pub writes : List Write
  pub panicked : Bool

-- What one request leads to: the store, whether the wrapped handler ran, the calls on the writer, and
-- whether the request ends in a panic.
pub record Handled (S : Type 0) : Type 0 where
  pub store : S
  pub ran : Bool
  pub out : List Write
  pub repanics : Bool

unfoldable pub contains : String → List String → Bool
contains x [] = false
contains x (y ∷ ys) = let rest = contains x ys in if str_eq y x then true else rest

unfoldable pub add_values : String → List String → List Write
add_values k [] = []
add_values k (v ∷ vs) = add_header k v ∷ add_values k vs

unfoldable pub add_headers : List (String × List String) → List Write
add_headers [] = []
add_headers ((k, vs) ∷ hs) = add_values k vs ++ add_headers hs

unfoldable pub serve_cached_response : Response → List Write
serve_cached_response response =
    add_headers response.headers
    ++ (set_header "X-Cache-Lookup" "HIT - Idempotency"
        ∷ write_header response.status_code
        ∷ write_body response.body
        ∷ [])

abbrev pub not_run : {S : Type 0} → S → List Write → Handled S
not_run s out = record { store = s; ran = false; out = out; repanics = false }

-- `next.ServeHTTP(w, r); return`.
abbrev pub pass_on : {S : Type 0} → S → Run → Handled S
pass_on s run = record { store = s; ran = true; out = run.writes; repanics = run.panicked }

module _ (bytes : String → List ℕ) where
  abbrev pub fail_with : ℕ → String → List Write
  fail_with code body =
      set_header "Content-Type" "application/json"
      ∷ write_header code
      ∷ write_body (bytes body)
      ∷ []

  abbrev pub missing_key : List Write
  missing_key =
      fail_with 400 "{\"error\":\"missing idempotency key\",\"code\":\"MISSING_IDEMPOTENCY_KEY\"}"

  abbrev pub store_error : List Write
  store_error =
      fail_with 500 "{\"error\":\"idempotency store error\",\"code\":\"IDEMPOTENCY_STORE_ERROR\"}"

  abbrev pub conflict : List Write
  conflict =
      fail_with 409
        "{\"error\":\"idempotent operation already in progress\",\"code\":\"IDEMPOTENCY_IN_PROGRESS\"}"

-- The response that is saved once the handler has run.
abbrev pub recorded : (List Write → List (String × List String)) → Run → Response
recorded header_map run =
    let rec = record_writes new_recorder run.writes in
    record { status_code = rec.status_code; headers = header_map rec.passed_on; body = rec.body }

module _ {S C E : Type 0} (bytes : String → List ℕ)
    (header_map : List Write → List (String × List String)) where
  -- From the making of the recorder on, with the context and clock of the last call of the store.
  unfoldable pub run_recorded : Store S C E → MiddlewareOptions → S → C → String → Run → Handled S
  run_recorded st cfg s ended key run =
      let out = (record_writes new_recorder run.writes).passed_on in
      if run.panicked
      then record { store = (st.unlock s ended key).0; ran = true; out = out; repanics = true }
      else if cfg.status_code_matcher (recorded header_map run).status_code
      then record {
        store = (st.save s ended key (recorded header_map run)).0;
        ran = true;
        out = out;
        repanics = false;
      }
      else record { store = (st.unlock s ended key).0; ran = true; out = out; repanics = false }

  -- The tests on what `Lock` returned.
  unfoldable pub after_lock :
      Store S C E → MiddlewareOptions → C → String → Run → S → LockResult E → Handled S
  after_lock st cfg ended key run s result = elim result.err [
    | some e ↦ not_run s (store_error bytes)
    | none ↦ elim (if result.exists then result.found else none) [
      | none ↦ run_recorded st cfg s ended key run
      | some rec ↦ elim rec.status [
        | in_progress ↦ not_run s (conflict bytes)
        | completed ↦ elim rec.response [
          | some response ↦ not_run s (serve_cached_response response)
          | none ↦ run_recorded st cfg s ended key run
        ]
      ]
    ]
  ]

  -- From the call of `Lock` on.
  unfoldable pub guarded : Store S C E → MiddlewareOptions → C → C → String → Run → S → Handled S
  guarded st cfg started ended key run s =
      let (s', result) = st.lock s started key in after_lock st cfg ended key run s' result

  unfoldable pub middleware :
      (String → String) → Store S C E → MiddlewareOptions → C → C → Request → Run → S → Handled S
  middleware trim_space st cfg started ended r run s =
      let key = trim_space (r.header cfg.header_name) in
      if contains r.method cfg.ignored_methods
      then pass_on s run
      else if str_eq key ""
      then (if cfg.enforce_header then not_run s (missing_key bytes) else pass_on s run)
      else guarded st cfg started ended key run s
