-- ===== src/HttpClient/Attempts.antt =====
-- The loop of `executeRetries` in httpclient/roundtripper.go: the number of its attempts and the waits.
use go_libs.Common.{ℕ, zero, suc, ◌+◌, ◌≤◌, Option, ◌⊎◌, ℤ, pos, Float, ◌≤ℤ◌, arith}
use go_libs.Retry.{Config}
use go_libs.HttpClient.{
  compute_retry_wait, HttpResponse, ClientError, Turn, ClientOptions, perform_attempt,
  after_attempt, retry_loop,
}

module _ {E : Type 0} (turn : ℕ → Turn E) (wait : ℕ → ℤ) (o : ClientOptions E) where
  after_attempt-le :
      (n k m : ℕ) (resp : Option HttpResponse) (err : Option (ClientError E))
      (rest : (Option HttpResponse ⊎ Option (ClientError E)) × ℕ)
      → suc k ≤ m
      → rest.1 ≤ m
      → (after_attempt turn wait o n k resp err rest).1 ≤ m
  unfolding after_attempt
  after_attempt-le n k m resp err rest h r = ground (arith, h, r)

  pub retry_loop-le : (n left k : ℕ) → (retry_loop turn wait o n left k).1 ≤ k + left
  unfolding retry_loop
  retry_loop-le n zero k = omega arith
  retry_loop-le n (suc left) k =
      let ih : (retry_loop turn wait o n left (suc k)).1 ≤ k + suc left =
        omega (arith, retry_loop-le n left (suc k)) in
      ground (
        arith,
        after_attempt-le n k (k + suc left) (perform_attempt o (turn k)).0
            (perform_attempt o (turn k)).2 (retry_loop turn wait o n left (suc k)) (omega arith) ih,
      )

-- A positive `MaxWait` bounds every wait between two attempts, whatever `float64` computes.
compute_retry_wait_bounded :
    (f : Float) (convert : f.F → ℤ) (random : f.F) {E : Type 0} (cfg : Config E) (attempt : ℕ)
    → (cfg.max_wait ≤ℤ pos 0) ⊎ (compute_retry_wait f convert random cfg attempt ≤ℤ cfg.max_wait)
unfolding compute_retry_wait
compute_retry_wait_bounded f convert random cfg attempt = ground arith
