-- ===== src/Idempotency/Middleware/Sent.antt =====
-- What clients of idempotency/middleware.go get: the status, the headers and the body that net/http makes of the calls
-- on a writer.
use go_libs.Common.{
  ℕ, ◌≡◌, ◌≢◌, refl, sym, ◌∙◌, Bool, true, false, ◌&&◌, Option, none, some, String, List, [], ◌∷◌,
  ◌++◌, leb, arith, lookup, string_discrete, Distinct, All,
}
use mathlib.Core.List.{append-nil, append_assoc}
use go_libs.Idempotency.Middleware.{
  Write, set_header, add_header, write_header, write_body, ResponseRecorder, record_write,
  record_writes,
}

-- The first call that begins the response decides its status; without one it is 200.
unfoldable pub sent_status : List Write → ℕ
sent_status [] = 200
sent_status (set_header k v ∷ ws) = sent_status ws
sent_status (add_header k v ∷ ws) = sent_status ws
sent_status (write_header code ∷ ws) = code
sent_status (write_body b ∷ ws) = 200

unfoldable pub sent_body : List Write → List ℕ
sent_body [] = []
sent_body (set_header k v ∷ ws) = sent_body ws
sent_body (add_header k v ∷ ws) = sent_body ws
sent_body (write_header code ∷ ws) = sent_body ws
sent_body (write_body b ∷ ws) = b ++ sent_body ws

-- The calls on the headers before the response begins.
unfoldable pub sent_before : List Write → List Write
sent_before [] = []
sent_before (set_header k v ∷ ws) = set_header k v ∷ sent_before ws
sent_before (add_header k v ∷ ws) = add_header k v ∷ sent_before ws
sent_before (write_header code ∷ ws) = []
sent_before (write_body b ∷ ws) = []

unfoldable pub only_body : List Write → Bool
only_body [] = true
only_body (set_header k v ∷ ws) = false
only_body (add_header k v ∷ ws) = false
only_body (write_header code ∷ ws) = false
only_body (write_body b ∷ ws) = only_body ws

-- The handler sets its headers, then at most one final status, and then writes the body.
unfoldable pub orderly : List Write → Bool
orderly [] = true
orderly (set_header k v ∷ ws) = orderly ws
orderly (add_header k v ∷ ws) = orderly ws
orderly (write_header code ∷ ws) = leb 200 code && only_body ws
orderly (write_body b ∷ ws) = only_body ws

abbrev pub or_none : Option (List String) → List String
or_none none = []
or_none (some vs) = vs

-- The values of a header.
unfoldable pub values : String → List (String × List String) → List String
values q m = or_none (lookup string_discrete q m)

-- What net/http documents of `Header()`: names in their canonical form, each once; `Add` appends a value, and `Set`
-- replaces those of its own name only.
pub record IsHeaderMap (canonical : String → String)
    (header_map : List Write → List (String × List String)) : Type 0 where
  pub empty : header_map [] ≡ []
  pub distinct : (ws : List Write) → Distinct string_discrete (header_map ws)
  pub is_canonical : (ws : List Write) → All (λ e. canonical e.0 ≡ e.0) (header_map ws)
  pub add_same :
      (ws : List Write) (k v : String)
      → canonical k ≡ k
      → values k (header_map (ws ++ (add_header k v ∷ []))) ≡ values k (header_map ws) ++ (v ∷ [])
  pub add_other :
      (ws : List Write) (k v q : String)
      → canonical k ≢ q
      → values q (header_map (ws ++ (add_header k v ∷ []))) ≡ values q (header_map ws)
  pub set_other :
      (ws : List Write) (k v q : String)
      → canonical k ≢ q
      → values q (header_map (ws ++ (set_header k v ∷ []))) ≡ values q (header_map ws)
  pub code_kept :
      (ws : List Write) (code : ℕ) → header_map (ws ++ (write_header code ∷ [])) ≡ header_map ws
  pub body_kept :
      (ws : List Write) (b : List ℕ) → header_map (ws ++ (write_body b ∷ [])) ≡ header_map ws

pub body_recorded :
    (rec : ResponseRecorder) (ws : List Write)
    → (record_writes rec ws).body ≡ rec.body ++ sent_body ws
unfolding record_writes record_write sent_body
body_recorded rec [] = sym (append-nil rec.body)
body_recorded rec (set_header k v ∷ ws) = body_recorded (record_write rec (set_header k v)) ws
body_recorded rec (add_header k v ∷ ws) = body_recorded (record_write rec (add_header k v)) ws
body_recorded rec (write_header code ∷ ws) = body_recorded (record_write rec (write_header code)) ws
body_recorded rec (write_body b ∷ ws) =
    body_recorded (record_write rec (write_body b)) ws ∙ append_assoc rec.body b (sent_body ws)

pub all_passed_on :
    (rec : ResponseRecorder) (ws : List Write)
    → (record_writes rec ws).passed_on ≡ rec.passed_on ++ ws
unfolding record_writes record_write
all_passed_on rec [] = sym (append-nil rec.passed_on)
all_passed_on rec (set_header k v ∷ ws) =
    all_passed_on (record_write rec (set_header k v)) ws ∙ append_assoc rec.passed_on _ ws
all_passed_on rec (add_header k v ∷ ws) =
    all_passed_on (record_write rec (add_header k v)) ws ∙ append_assoc rec.passed_on _ ws
all_passed_on rec (write_header code ∷ ws) =
    all_passed_on (record_write rec (write_header code)) ws ∙ append_assoc rec.passed_on _ ws
all_passed_on rec (write_body b ∷ ws) =
    all_passed_on (record_write rec (write_body b)) ws ∙ append_assoc rec.passed_on _ ws

status_kept :
    (rec : ResponseRecorder) (ws : List Write)
    → only_body ws ≡ true
    → (record_writes rec ws).status_code ≡ rec.status_code
unfolding record_writes record_write only_body
status_kept rec [] h = refl
status_kept rec (set_header k v ∷ ws) h = cc
status_kept rec (add_header k v ∷ ws) h = cc
status_kept rec (write_header code ∷ ws) h = cc
status_kept rec (write_body b ∷ ws) h = status_kept (record_write rec (write_body b)) ws h

pub status_recorded :
    (rec : ResponseRecorder) (ws : List Write)
    → rec.status_code ≡ 200
    → orderly ws ≡ true
    → (record_writes rec ws).status_code ≡ sent_status ws
unfolding record_writes record_write orderly sent_status
status_recorded rec [] s h = s
status_recorded rec (set_header k v ∷ ws) s h =
    status_recorded (record_write rec (set_header k v)) ws s h
status_recorded rec (add_header k v ∷ ws) s h =
    status_recorded (record_write rec (add_header k v)) ws s h
status_recorded rec (write_header code ∷ ws) s h =
    status_kept (record_write rec (write_header code)) ws (ground (arith, h))
status_recorded rec (write_body b ∷ ws) s h = status_kept (record_write rec (write_body b)) ws h ∙ s
