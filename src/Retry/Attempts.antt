-- ===== src/Retry/Attempts.antt =====
-- The loop and the waits of retry/retry.go.
use go_libs.Common.{
  ℕ, zero, suc, ◌+◌, ◌<◌, ◌≡◌, ◌∙◌, refl, ap, true, false, Option, none, some, ◌⊎◌, inl, inr, ◌==◌,
  ℤ, pos, to_ℕ, ◌≤ℤ◌, Float, default_ℤ, arith,
}
use go_libs.Retry.{
  Config, Turn, Result, done, fails, exhausted, compute_wait, retries, after_call, attempt_loop,
  do_internal,
}

-- A wait is never negative, and a positive `MaxWait` bounds it, whatever `float64` computes.
compute_wait_bounded :
    (f : Float) (random : f.F) {E : Type 0} (cfg : Config E) (attempt : ℕ)
    → (pos 0 ≤ℤ compute_wait f random cfg attempt)
      × ((cfg.max_wait ≤ℤ pos 0) ⊎ (compute_wait f random cfg attempt ≤ℤ cfg.max_wait))
unfolding compute_wait
compute_wait_bounded f random cfg attempt = ground arith

module _ {T E : Type 0} (turn : ℕ → Turn T E) (wait : ℕ → ℤ) (cfg : Config E) where
  -- The attempt `k` fails, is to be retried, and neither the context nor the wait ends the loop.
  pub record Passes (k : ℕ) (e : E) : Type 0 where
    pub live : (turn k).ctx_err ≡ none
    pub error : (turn k).returned ≡ inr e
    pub again : retries turn wait cfg e ≡ true
    pub waited : (turn k).ended ≡ none

  pass_one :
      (n left k : ℕ) (e : E) (last : Option E)
      → Passes k e
      → suc k < n
      → attempt_loop turn wait cfg n (suc left) k last
        ≡ attempt_loop turn wait cfg n left (suc k) (some e)
  unfolding attempt_loop after_call
  pass_one n left k e last p h =
      let more : (suc k == n) ≡ false = ground arith in
      rw (p.live, attempt_loop)
        (rw (p.error, after_call) (rw (p.again, more) (rw p.waited (ground arith))))

  pass_all :
      (errs : ℕ → E) (j t k left n : ℕ) (last : Option E)
      → ((i : ℕ) → i < k + j → Passes i (errs i))
      → t ≡ j + suc left
      → n ≡ k + t
      → (l : Option E) × (attempt_loop turn wait cfg n t k last
          ≡ attempt_loop turn wait cfg n (suc left) (k + j) l)
  pass_all errs zero t k left n last ps a b =
      let turns : t ≡ suc left = omega (arith, a) in
      let index : k + 0 ≡ k = omega arith in (last, rw (turns, index) refl)
  pass_all errs (suc j) zero k left n last ps a b = absurd (omega (arith, a))
  pass_all errs (suc j) (suc t) k left n last ps a b =
      let (l, e) =
        pass_all errs j t (suc k) left n (some (errs k)) (λ i h. ps i (omega (arith, h)))
          (omega (arith, a)) (omega (arith, b)) in
      let index : suc k + j ≡ k + suc j = omega arith in
      (
        l,
        pass_one n t k (errs k) last (ps k (omega arith)) (omega (arith, a, b))
            ∙ e
            ∙ ap (λ i. attempt_loop turn wait cfg n (suc left) i l) index,
      )

  -- How the attempt `j` ends the loop, when `left` turns are left after it: by a value, by an error that is not to be
  -- retried, or as the last one.
  pub data Ends (j left : ℕ) : Result T E → Type 0 where
    value : (v : T) → (turn j).returned ≡ inl v → Ends j left (done v)
    refused :
        (e : E)
        → (turn j).returned ≡ inr e
        → retries turn wait cfg e ≡ false
        → Ends j left (fails e)
    last :
        (e : E)
        → (turn j).returned ≡ inr e
        → retries turn wait cfg e ≡ true
        → left ≡ 0
        → Ends j left (exhausted (some e))

  ending :
      (n left j : ℕ) (l : Option E) (r : Result T E)
      → (turn j).ctx_err ≡ none
      → n ≡ j + suc left
      → Ends j left r
      → attempt_loop turn wait cfg n (suc left) j l ≡ (r, suc j)
  unfolding attempt_loop after_call
  ending n left j l _ live a (value v r) = rw (live, attempt_loop) (rw r refl)
  ending n left j l _ live a (refused e r x) =
      rw (live, attempt_loop) (rw (r, after_call) (rw x refl))
  ending n left j l _ live a (last e r x z) =
      let final : (suc j == n) ≡ true = ground arith in
      rw (live, attempt_loop) (rw (r, after_call) (rw (x, final) refl))

  entered :
      (n : ℕ)
      → cfg.attempts ≡ pos (suc n)
      → do_internal turn wait cfg ≡ attempt_loop turn wait cfg (suc n) (suc n) 0 none
  unfolding do_internal
  entered n a =
      let size : to_ℕ (default_ℤ cfg.attempts (pos 1)) ≡ suc n = rw a (ground arith) in rw size refl

  -- If each of the first `j` attempts fails with an error that is retried, and the context is not
  -- cancelled before an attempt nor in a wait, then attempt `j` is made and decides: its
  -- value is returned; an error that is not to be retried is returned as it is; and an error of
  -- the last attempt is joined with `ErrMaxAttemptsReached`. The function has then been called
  -- `j + 1` times.
  pub attempt_decides :
      (errs : ℕ → E) (j left : ℕ) (r : Result T E)
      → cfg.attempts ≡ pos (suc (j + left))
      → ((i : ℕ) → i < j → Passes i (errs i))
      → (turn j).ctx_err ≡ none
      → Ends j left r
      → do_internal turn wait cfg ≡ (r, suc j)
  attempt_decides errs j left r a ps live q =
      let (l, e) =
        pass_all errs j (suc (j + left)) 0 left (suc (j + left)) none
          (λ i h. ps i (omega (arith, h))) (omega arith) (omega arith) in
      let at : 0 + j ≡ j = omega arith in
      entered (j + left) a
      ∙ e
      ∙ ap (λ i. attempt_loop turn wait cfg (suc (j + left)) (suc left) i l) at
      ∙ ending (suc (j + left)) left j l r live (omega arith) q
