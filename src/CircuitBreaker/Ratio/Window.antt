-- ===== src/CircuitBreaker/Ratio/Window.antt =====
-- circuitbreaker/ratio.go: the rolling window. The counter of failures is always that of the records,
-- and `evaluateRatio` decides on exactly the records within the window.
use go_libs.Common.{
  ℕ, suc, ◌≤◌, ◌≡◌, refl, sym, ◌∙◌, Bool, true, false, ◌&&◌, Option, List, [], ◌∷◌, ◌++◌,
  if◌then◌else◌, arith, ℤ, pos, ltb_ℤ, leb_ℤ, ◌+ℤ◌, ◌-ℤ◌, length, Float, All, Bool-cases, inl, inr,
  ap,
}
use go_libs.CircuitBreaker.{opened, Options}
use go_libs.CircuitBreaker.Ratio.{
  ReqRecord, RatioBreaker, new_ratio_breaker, prune, decide_ratio, evaluate_ratio, add_record,
  can_execute, record_result, on_panic, transition,
}
use go_libs.CircuitBreaker.Ratio.Concurrent.{
  System, enter, start, Step, admission, probe_result, probe_panic, plain_result, plain_panic,
  Reach, here, next,
}

unfoldable pub count_failed : List ReqRecord → ℕ
count_failed [] = 0
count_failed (r ∷ rs) = let rest = count_failed rs in if r.failed then suc rest else rest

-- The records that are not before the cutoff.
unfoldable pub within_window : ℤ → List ReqRecord → List ReqRecord
within_window cutoff [] = []
within_window cutoff (r ∷ rs) =
    let rest = within_window cutoff rs in if ltb_ℤ (pos r.ts) cutoff then rest else r ∷ rest

-- The records stand in the order of their times.
abbrev pub Ordered : List ReqRecord → Type 0
Ordered [] = Unit
Ordered (r ∷ rs) = All (λ q. r.ts ≤ q.ts) rs × Ordered rs

add_one : (n : ℕ) → pos n +ℤ pos 1 ≡ pos (suc n)
unfolding ◌+ℤ◌
add_one n = ground arith

sub_one : (n : ℕ) → pos (suc n) -ℤ pos 1 ≡ pos n
unfolding ◌-ℤ◌
sub_one n = ground arith

count_failed-append :
    (rs : List ReqRecord) (r : ReqRecord)
    → count_failed (rs ++ (r ∷ [])) ≡ (if r.failed then suc (count_failed rs) else count_failed rs)
unfolding count_failed
count_failed-append [] r = ground arith
count_failed-append (q ∷ rs) r = ground (arith, count_failed-append rs r)

counted_drop :
    (r : ReqRecord) (rs : List ReqRecord) (count : ℤ)
    → count ≡ pos (count_failed (r ∷ rs))
    → (if r.failed then count -ℤ pos 1 else count) ≡ pos (count_failed rs)
unfolding count_failed
counted_drop r rs count h = elim (Bool-cases r.failed) [
  | inl bad ↦ ground (arith, bad, sub_one (count_failed rs))
  | inr good ↦ ground (arith, good)
]

prune_counted :
    (cutoff : ℤ) (rs : List ReqRecord) (count : ℤ)
    → count ≡ pos (count_failed rs)
    → (prune cutoff rs count).1 ≡ pos (count_failed (prune cutoff rs count).0)
unfolding prune count_failed
prune_counted cutoff [] count h = h
prune_counted cutoff (r ∷ rs) count h =
    ground (arith, prune_counted cutoff rs _ (counted_drop r rs count h))

later_kept :
    (cutoff : ℤ) (t : ℕ) (rs : List ReqRecord)
    → ltb_ℤ (pos t) cutoff ≡ false
    → All (λ q. t ≤ q.ts) rs
    → within_window cutoff rs ≡ rs
unfolding within_window
later_kept cutoff t [] h a = refl
later_kept cutoff t (r ∷ rs) h a = ground (arith, later_kept cutoff t rs h a.1, a.0)

prune_window :
    (cutoff : ℤ) (rs : List ReqRecord) (count : ℤ)
    → Ordered rs
    → (prune cutoff rs count).0 ≡ within_window cutoff rs
unfolding prune within_window
prune_window cutoff [] count o = refl
prune_window cutoff (r ∷ rs) count o = elim (Bool-cases (ltb_ℤ (pos r.ts) cutoff)) [
  | inl old ↦ rw (old, prune, within_window) (prune_window cutoff rs _ o.1)
  | inr kept ↦
      rw (kept, prune, within_window) (ap (◌∷◌ r) (sym (later_kept cutoff r.ts rs kept o.0)))
]

module _ {f : Float} where
  abbrev pub Counted : RatioBreaker f → Type 0
  Counted rb = rb.failure_count ≡ pos (count_failed rb.records)

  decide_ratio_records :
      (rb : RatioBreaker f) (now : ℕ) → (decide_ratio rb now).0.records ≡ rb.records
  unfolding decide_ratio transition
  decide_ratio_records rb now = ground arith

  decide_ratio_count :
      (rb : RatioBreaker f) (now : ℕ) → (decide_ratio rb now).0.failure_count ≡ rb.failure_count
  unfolding decide_ratio transition
  decide_ratio_count rb now = ground arith

  decide_ratio-Counted :
      (rb : RatioBreaker f) (now : ℕ) → Counted rb → Counted (decide_ratio rb now).0
  decide_ratio-Counted rb now c =
      decide_ratio_count rb now
      ∙ c
      ∙ ap (λ rs. pos (count_failed rs)) (sym (decide_ratio_records rb now))

  evaluate_ratio-Counted :
      (rb : RatioBreaker f) (now : ℕ) → Counted rb → Counted (evaluate_ratio rb now).0
  unfolding evaluate_ratio
  evaluate_ratio-Counted rb now c =
      decide_ratio-Counted _ now
        (prune_counted (pos now -ℤ rb.window) rb.records rb.failure_count c)

  add_record-Counted :
      (rb : RatioBreaker f) (failed : Bool) (now : ℕ)
      → Counted rb
      → Counted (add_record rb failed now)
  unfolding add_record
  add_record-Counted rb failed now c = ground (
    arith,
    count_failed-append rb.records (record { ts = now; failed = failed }),
    add_one (count_failed rb.records),
  )

  evaluate_added-Counted :
      (rb : RatioBreaker f) (failed : Bool) (now : ℕ)
      → Counted rb
      → Counted (evaluate_ratio (add_record rb failed now) now).0
  evaluate_added-Counted rb failed now c =
      evaluate_ratio-Counted _ now (add_record-Counted rb failed now c)

  can_execute-Counted :
      (rb : RatioBreaker f) (now : ℕ) → Counted rb → Counted (can_execute rb now).0
  unfolding can_execute
  can_execute-Counted rb now c = ground arith

  on_panic-Counted :
      (rb : RatioBreaker f) (is_probe : Bool) (now : ℕ)
      → Counted rb
      → Counted (on_panic rb is_probe now).0
  unfolding on_panic
  on_panic-Counted rb is_probe now c = ground (arith, evaluate_added-Counted rb true now c)

  module _ {E : Type 0} (is_canceled : E → Bool) where
    record_result-Counted :
        (rb : RatioBreaker f) (is_probe : Bool) (err : Option E) (now : ℕ)
        → Counted rb
        → Counted (record_result is_canceled rb is_probe err now).0
    unfolding record_result count_failed
    record_result-Counted rb is_probe err now c =
        ground (arith, evaluate_added-Counted rb true now c, evaluate_added-Counted rb false now c)

    Step-Counted : {s t : System f} → Step is_canceled s t → Counted s.breaker → Counted t.breaker
    unfolding enter
    Step-Counted {s} (admission now) c = grind (arith, can_execute-Counted s.breaker now c)
    Step-Counted (probe_result n now err e) c = record_result-Counted _ true err now c
    Step-Counted (probe_panic n now e) c = on_panic-Counted _ true now c
    Step-Counted (plain_result n now err e) c = record_result-Counted _ false err now c
    Step-Counted (plain_panic n now e) c = on_panic-Counted _ false now c

    Reach-Counted_from :
        {s t : System f} → Reach is_canceled s t → Counted s.breaker → Counted t.breaker
    Reach-Counted_from here c = c
    Reach-Counted_from (next r st) c = Step-Counted st (Reach-Counted_from r c)

    -- However the critical sections of concurrent callers interleave, the failure count that
    -- `evaluateRatio` divides by is the number of failed records in the window's list.
    Reach-Counted :
        (failure_ratio : f.F) (min_requests window reset_timeout : ℤ) (o : Options) {s : System f}
        → Reach is_canceled (start failure_ratio min_requests window reset_timeout o) s
        → s.breaker.failure_count ≡ pos (count_failed s.breaker.records)
    unfolding start new_ratio_breaker count_failed
    Reach-Counted p m w t o r = Reach-Counted_from r refl

  -- The ratio of failures among records, tested against the limit, with at least `min_requests` of them.
  abbrev pub ratio_reached : RatioBreaker f → List ReqRecord → Bool
  ratio_reached rb rs =
      leb_ℤ rb.min_requests (pos (length rs))
      && f.leb rb.failure_ratio (f.div (f.of_int (pos (count_failed rs))) (f.of_nat (length rs)))

  decide_ratio_state :
      (rb : RatioBreaker f) (now : ℕ)
      → Counted rb
      → (decide_ratio rb now).0.state ≡ (if ratio_reached rb rb.records then opened else rb.state)
  unfolding decide_ratio transition
  decide_ratio_state rb now c = rw c (ground arith)

  -- If the records stand in the order of their times and the failure count is theirs, then
  -- `evaluateRatio` keeps exactly the records within the window, counts the failed ones among
  -- them, and opens the breaker exactly if they are at least `minRequests` and the share of failed
  -- ones reaches `failureRatio`.
  pub evaluate_window :
      (rb : RatioBreaker f) (now : ℕ)
      → Ordered rb.records
      → rb.failure_count ≡ pos (count_failed rb.records)
      → let kept : List ReqRecord = within_window (pos now -ℤ rb.window) rb.records in
        let after : RatioBreaker f = (evaluate_ratio rb now).0 in
        (after.records ≡ kept)
        × (after.failure_count ≡ pos (count_failed kept))
        × (after.state ≡ (if ratio_reached rb kept then opened else rb.state))
  unfolding evaluate_ratio
  evaluate_window rb now o c =
      let cutoff = pos now -ℤ rb.window in
      let records = (prune cutoff rb.records rb.failure_count).0 in
      let pruned : RatioBreaker f = record rb {
        records = records;
        failure_count = (prune cutoff rb.records rb.failure_count).1;
      } in
      let kept = prune_window cutoff rb.records rb.failure_count o in
      let counted = prune_counted cutoff rb.records rb.failure_count c in
      (
        decide_ratio_records pruned now ∙ kept,
        decide_ratio_count pruned now ∙ counted ∙ ap (λ rs. pos (count_failed rs)) kept,
        decide_ratio_state pruned now counted
            ∙ ap (λ rs. if ratio_reached rb rs then opened else rb.state) kept,
      )
