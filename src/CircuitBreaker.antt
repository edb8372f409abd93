-- ===== src/CircuitBreaker.antt =====
-- circuitbreaker/circuitbreaker.go: the states, the options and what both breakers share. A clock
-- reading is a number of nanoseconds and is an argument of what reads the clock. The collectors
-- of `Metrics` are counters of the breaker's record, and a state callback is a value that the
-- caller receives.
pub mod Consecutive
pub mod Ratio
use go_libs.Common.{ℕ, ◌+◌, Bool, true, false, Option, none, some, List, [], ◌∷◌, if◌then◌else◌}
pub use go_libs.Common.{sub_time}
use go_libs.Common.{ℤ, pos, sub_ℕ, leb_ℤ, ltb_ℤ}

pub data State : Type 0 where
  closed opened half_open : State

-- `State.String`.
unfoldable pub state_string : State → go_libs.Common.String
state_string closed = "CLOSED"
state_string opened = "OPEN"
state_string half_open = "HALF_OPEN"

-- `a == b` on states.
abbrev pub same : State → State → Bool
same closed closed = true
same opened opened = true
same half_open half_open = true
same _ _ = false

-- A pending call of `onStateChange(from, to)`.
pub record Change : Type 0 where
  pub from : State
  pub to : State

-- `on_state_change` tells whether a callback is registered.
pub record Options : Type 0 where
  pub on_state_change : Bool
  pub max_half_open : ℤ

abbrev pub no_options : Options
no_options = record { on_state_change = false; max_half_open = pos 0 }

-- `WithOnStateChange`, with a callback that is not nil or with nil.
unfoldable pub with_on_state_change : Bool → Options → Options
with_on_state_change registered o = record o { on_state_change = registered }

-- `WithHalfOpenProbes`.
unfoldable pub with_half_open_probes : ℤ → Options → Options
with_half_open_probes n o = if ltb_ℤ (pos 0) n then record o { max_half_open = n } else o

-- What the wrapped function does: it returns an error or nil, or it panics.
pub data Outcome (E : Type 0) : Type 0 where
  returns : Option E → Outcome E
  panics : Outcome E

-- One call of `Execute`: `ctx.Err()` before admission and after the call, the clock readings at
-- admission and at completion, and what the wrapped function does.
pub record Request (E : Type 0) : Type 0 where
  pub ctx_before : Option E
  pub started : ℕ
  pub outcome : Outcome E
  pub ctx_after : Option E
  pub ended : ℕ

-- What `Execute` gives its caller.
pub data Reply (E : Type 0) : Type 0 where
  replies : Option E → Reply E
  repanics : Reply E

abbrev pub changes : Option Change → List Change
changes none = []
changes (some c) = c ∷ []

-- `if err == nil && ctx.Err() != nil { err = ctx.Err() }`.
abbrev pub or_ctx_err : {E : Type 0} → Option E → Option E → Option E
or_ctx_err (some e) ctx = some e
or_ctx_err none ctx = ctx
