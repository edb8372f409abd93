-- ===== src/Retry.antt =====
-- retry/retry.go. What the context and the function do at each attempt is a parameter. `float64` is a
-- parameter; the random number of the jitter is an argument.
pub mod Attempts
use go_libs.Common.{
  ℕ, zero, suc, ◌+◌, ◌-◌, ◌%◌, ◌^◌, ◌==◌, min, Bool, true, false, not, Option, none, some, ◌⊎◌, inl,
  inr, if◌then◌else◌, ltb, ℤ, pos, negsuc, leb_ℤ, ltb_ℤ, to_ℕ, Float, default_ℤ,
}
use go_libs.Common.{wrap, ◌*ℤ◌}

pub data Strategy : Type 0 where
  constant linear exponential exponential_jitter : Strategy

pub record Config (E : Type 0) : Type 0 where
  pub attempts : ℤ
  pub initial_wait : ℤ
  pub max_wait : ℤ
  pub strategy : Strategy
  pub should_retry : Option (E → Bool)

-- One turn of the loop: `ctx.Err()` before it, what the function returns, and `ctx.Err()` if the context ends
-- before the timer.
pub record Turn (T E : Type 0) : Type 0 where
  pub ctx_err : Option E
  pub returned : T ⊎ E
  pub ended : Option E

-- A value, an error as it is, or `errors.Join(ErrMaxAttemptsReached, last)`.
pub data Result (T E : Type 0) : Type 0 where
  done : T → Result T E
  fails : E → Result T E
  exhausted : Option E → Result T E

-- 2^63 - 1.
abbrev pub max_int : ℕ
max_int = 9_223_372_036_854_775_807

-- The conversion of a duration that is not negative, capped at the greatest `int64`.
abbrev pub to_duration : (f : Float) → f.F → ℤ
to_duration f x = if f.leb (f.of_nat max_int) x then pos max_int else pos (f.trunc x)

unfoldable pub raw_wait : (f : Float) → f.F → Strategy → ℤ → ℕ → ℤ
raw_wait f random constant initial attempt = initial
raw_wait f random linear initial attempt = wrap (initial *ℤ pos (suc (min attempt 1_000_000)))
raw_wait f random exponential initial attempt =
    to_duration f (f.mul (f.of_int initial) (f.of_nat (2 ^ min attempt 30)))
raw_wait f random exponential_jitter initial attempt =
    let ceiling = f.mul (f.of_int initial) (f.of_nat (2 ^ min attempt 30)) in
    let capped = if f.leb (f.of_nat max_int) ceiling then f.of_nat max_int else ceiling in
    pos (f.trunc (f.mul random capped))

unfoldable pub compute_wait : (f : Float) → f.F → {E : Type 0} → Config E → ℕ → ℤ
compute_wait f random cfg attempt =
    let raw = raw_wait f random cfg.strategy cfg.initial_wait attempt in
    let d = if ltb_ℤ raw (pos 0) then pos 0 else raw in
    if leb_ℤ cfg.initial_wait (pos 0)
    then pos 0
    else if ltb_ℤ (pos 0) cfg.max_wait
    then (if ltb_ℤ cfg.max_wait d then cfg.max_wait else d)
    else d

-- `wait` gives `computeWait(cfg, attempt)`, with the random number of that call.
module _ {T E : Type 0} (turn : ℕ → Turn T E) (wait : ℕ → ℤ) where
  abbrev pub retries : Config E → E → Bool
  retries cfg e = elim cfg.should_retry [ none ↦ true | some test ↦ test e ]

  -- After the call of the function in the turn `attempt`; `rest` is the result of the later turns.
  unfoldable pub after_call : Config E → ℕ → ℕ → T ⊎ E → Result T E × ℕ → Result T E × ℕ
  after_call cfg attempts attempt (inl v) rest = (done v, suc attempt)
  after_call cfg attempts attempt (inr e) rest =
      if not (retries cfg e)
      then (fails e, suc attempt)
      else if suc attempt == attempts
      then (exhausted (some e), suc attempt)
      else if ltb_ℤ (pos 0) (wait attempt)
      then elim (turn attempt).ended [ some e' ↦ (fails e', suc attempt) | none ↦ rest ]
      else rest

  abbrev pub error_of : T ⊎ E → Option E → Option E
  error_of (inl v) last = last
  error_of (inr e) last = some e

  -- The loop from `attempt` on, with `left` turns left; the second part is the number of calls made.
  unfoldable pub attempt_loop : Config E → ℕ → ℕ → ℕ → Option E → Result T E × ℕ
  attempt_loop cfg attempts zero attempt last = (exhausted last, attempt)
  attempt_loop cfg attempts (suc left) attempt last =
      let returned = (turn attempt).returned in
      let rest = attempt_loop cfg attempts left (suc attempt) (error_of returned last) in
      elim (turn attempt).ctx_err [
        | some e ↦ (fails e, attempt)
        | none ↦ after_call cfg attempts attempt returned rest
      ]

  unfoldable pub do_internal : Config E → Result T E × ℕ
  do_internal cfg =
      let attempts = to_ℕ (default_ℤ cfg.attempts (pos 1)) in
      attempt_loop cfg attempts attempts 0 none
