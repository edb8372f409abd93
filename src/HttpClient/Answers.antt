-- ===== src/HttpClient/Answers.antt =====
-- Which attempt of httpclient/roundtripper.go ends the loop of `executeRetries`, and with what.
use go_libs.Common.{
  ℕ, zero, suc, ◌+◌, ◌≡◌, ◌<◌, refl, ap, ◌∙◌, true, false, ◌==◌, Option, none, some, ◌⊎◌, inl, inr,
  leb, ℤ, arith, Bool-cases,
}
use go_libs.HttpClient.{
  HttpResponse, ClientError, RequestBody, Turn, ClientOptions, perform_attempt, last_result,
  refuses, after_attempt, retry_loop, attempts_for, execute_retries,
}

module _ {E : Type 0} (turn : ℕ → Turn E) (wait : ℕ → ℤ) (o : ClientOptions E) where
  -- Attempt `k` fails or is answered with a server error, `ShouldRetry` does not refuse, and neither the
  -- context nor the wait ends the loop.
  pub record Retried (k : ℕ) : Type 0 where
    pub live : (turn k).ctx_err ≡ none
    pub failed : (perform_attempt o (turn k)).1 ≡ true
    pub again : refuses o (perform_attempt o (turn k)).2 ≡ false
    pub waited : (turn k).wait_ended ≡ none

  -- How attempt `j` ends the loop, with `left` turns left after it: by an answer below 500, or by a
  -- failure that is not to be retried or that is the last one.
  pub data Ends (j left : ℕ) : Option HttpResponse ⊎ Option (ClientError E) → Type 0 where
    answers :
        (code : ℕ)
        → (turn j).answer ≡ inl code
        → leb 500 code ≡ false
        → Ends j left (inl (some (record { status_code = code })))
    gives_up :
        (perform_attempt o (turn j)).1 ≡ true
        → (refuses o (perform_attempt o (turn j)).2 ≡ true) ⊎ (left ≡ 0)
        → Ends j left (last_result (perform_attempt o (turn j)).0 (perform_attempt o (turn j)).2)

  retry_one :
      (n left k : ℕ)
      → Retried k
      → suc k < n
      → retry_loop turn wait o n (suc left) k ≡ retry_loop turn wait o n left (suc k)
  unfolding retry_loop after_attempt
  retry_one n left k p h =
      let more : (suc k == n) ≡ false = ground arith in
      rw (p.live, retry_loop)
        (rw p.failed (rw (p.again, after_attempt) (rw more (rw p.waited (ground arith)))))

  retry_all :
      (j t k left n : ℕ)
      → ((i : ℕ) → i < k + j → Retried i)
      → t ≡ j + suc left
      → n ≡ k + t
      → retry_loop turn wait o n t k ≡ retry_loop turn wait o n (suc left) (k + j)
  retry_all zero t k left n ps a b =
      let turns : t ≡ suc left = omega (arith, a) in
      let index : k + 0 ≡ k = omega arith in rw (turns, index) refl
  retry_all (suc j) zero k left n ps a b = absurd (omega (arith, a))
  retry_all (suc j) (suc t) k left n ps a b =
      let index : suc k + j ≡ k + suc j = omega arith in
      retry_one n t k (ps k (omega arith)) (omega (arith, a, b))
      ∙ retry_all j t (suc k) left n (λ i h. ps i (omega (arith, h))) (omega (arith, a))
          (omega (arith, b))
      ∙ ap (λ i. retry_loop turn wait o n (suc left) i) index

  ending :
      (n left j : ℕ) (r : Option HttpResponse ⊎ Option (ClientError E))
      → (turn j).ctx_err ≡ none
      → n ≡ j + suc left
      → Ends j left r
      → retry_loop turn wait o n (suc left) j ≡ (r, suc j)
  unfolding retry_loop after_attempt perform_attempt
  ending n left j _ live a (answers code r low) =
      rw (live, retry_loop) (rw (r, perform_attempt) (rw low refl))
  ending n left j _ live a (gives_up f (inl x)) =
      rw (live, retry_loop) (rw f (rw (x, after_attempt) refl))
  ending n left j _ live a (gives_up f (inr z)) =
      let final : (suc j == n) ≡ true = ground arith in
      elim (Bool-cases (refuses o (perform_attempt o (turn j)).2)) [
        | inl x ↦ rw (live, retry_loop) (rw f (rw (x, after_attempt) refl))
        | inr x ↦ rw (live, retry_loop) (rw f (rw (x, after_attempt) (rw final refl)))
      ]

  -- If each of the first `j` attempts is to be retried and the context lives before attempt `j`, then attempt `j` is made
  -- and decides: an answer below 500 is returned; a failure that is not to be retried or is
  -- the last one gives its response if there is one, whatever its code, and else its error. The
  -- wrapped transport has then been called `j + 1` times.
  pub attempt_answers :
      (b : RequestBody E) (j left : ℕ) (r : Option HttpResponse ⊎ Option (ClientError E))
      → attempts_for o b ≡ suc (j + left)
      → ((i : ℕ) → i < j → Retried i)
      → (turn j).ctx_err ≡ none
      → Ends j left r
      → execute_retries turn wait o b ≡ (r, suc j)
  unfolding execute_retries
  attempt_answers b j left r a ps live q =
      let at : 0 + j ≡ j = omega arith in
      ap (λ n. retry_loop turn wait o n n 0) a
      ∙ retry_all j (suc (j + left)) 0 left (suc (j + left)) (λ i h. ps i (omega (arith, h)))
          (omega arith) (omega arith)
      ∙ ap (λ i. retry_loop turn wait o (suc (j + left)) (suc left) i) at
      ∙ ending (suc (j + left)) left j r live (omega arith) q
