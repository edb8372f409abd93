-- ===== src/Examples/Requests.antt =====
-- idempotency/middleware.go at concrete inputs: headers as they are named, and texts that need no trimming.
use go_libs.Common.{◌++◌, insert, string_discrete, ℕ, ◌≡◌, refl, true, false, String, List, [], ◌∷◌}
use go_libs.Idempotency.Middleware.{
  MiddlewareOptions, default_options, configure, with_enforce_header, Write, set_header, add_header,
  write_header, write_body, Request, Run, recorded, record_writes, record_write,
}
use go_libs.Idempotency.Middleware.Sent.{values}

abbrev no_bytes : String → List ℕ
no_bytes t = []

abbrev same_text : String → String
same_text t = t

-- The headers that calls leave, where every name is its own canonical form.
apply_write : List (String × List String) → Write → List (String × List String)
apply_write m (set_header k v) = insert string_discrete k (v ∷ []) m
apply_write m (add_header k v) = insert string_discrete k (values k m ++ (v ∷ [])) m
apply_write m (write_header code) = m
apply_write m (write_body b) = m

apply_writes : List (String × List String) → List Write → List (String × List String)
apply_writes m [] = m
apply_writes m (w ∷ ws) = apply_writes (apply_write m w) ws

abbrev plain_headers : List Write → List (String × List String)
plain_headers ws = apply_writes [] ws

abbrev cfg : MiddlewareOptions
cfg = record default_options { enforce_header = true }

cfg_configured : configure (with_enforce_header true ∷ []) default_options ≡ cfg
unfolding configure with_enforce_header
cfg_configured = refl

abbrev post : Request
post = record { method = "POST"; header = λ name. "a" }

abbrev creates : Run
creates = record {
  writes = set_header "Location" "/1" ∷ write_header 201 ∷ write_body (1 ∷ 2 ∷ []) ∷ [];
  panicked = false;
}

abbrev breaks : Run
breaks = record { writes = write_header 503 ∷ []; panicked = false }

created :
    recorded plain_headers creates
    ≡ record { status_code = 201; headers = ("Location", "/1" ∷ []) ∷ []; body = 1 ∷ 2 ∷ [] }
unfolding record_writes record_write apply_writes apply_write insert
created = refl
