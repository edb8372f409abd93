-- ===== src/Examples/Retries.antt =====
-- retry/retry.go at concrete inputs. An error is a number.
use go_libs.Common.{ℕ, zero, suc, ◌<◌, ◌≡◌, refl, inl, inr, none, arith, ℤ, pos}
use go_libs.Retry.{Config, Turn, done, linear, compute_wait, do_internal}
use go_libs.Retry.Attempts.{Passes, value, attempt_decides}
use go_libs.Examples.Windows.{whole}

abbrev cfg : Config ℕ
cfg = record {
  attempts = pos 3;
  initial_wait = pos 5;
  max_wait = pos 8;
  strategy = linear;
  should_retry = none;
}

-- The first attempt fails, and the second returns 42.
abbrev turns : ℕ → Turn ℕ ℕ
turns zero = record { ctx_err = none; returned = inr 7; ended = none }
turns (suc n) = record { ctx_err = none; returned = inl 42; ended = none }

abbrev waits : ℕ → ℤ
waits = compute_wait whole 0 cfg

first_fails : (i : ℕ) → i < 1 → Passes turns waits cfg i 7
first_fails zero h = record { live = refl; error = refl; again = refl; waited = refl }
first_fails (suc i) h = absurd (omega (arith, h))

attempt_decides_example : do_internal turns waits cfg ≡ (done 42, suc 1)
attempt_decides_example =
    attempt_decides turns waits cfg (λ i. 7) 1 1 (done 42) refl first_fails refl (value 42 refl)
