-- ===== src/WorkerPool/Draining.antt =====
-- After `Stop` a pool comes to rest, with every accepted task run.
use go_libs.Common.{
  ℕ, zero, suc, ◌+◌, ◌*◌, ◌≡◌, ◌≤◌, ◌<◌, refl, sym, ap, ◌∙◌, Bool, true, false, some, ◌⊎◌, inl, inr,
  List, [], ◌∷◌, ◌++◌, length, ℤ, arith, Bool-cases,
}
use go_libs.WorkerPool.{drop_task, is_stopped, close_closed, close_tasks, receive, execute_safely}
use go_libs.WorkerPool.Concurrent.{
  System, start, Step, begin, send, send_full, send_broken, ctx_ended, closed_seen, stop_begins,
  stop_ends, take, finish, exit, refused, Run, stay, then_step, then_refused,
}
use go_libs.WorkerPool.Soundness.{
  Sound, sent_right, full_right, panic_right, received_right, list_cases, length_snoc, Step-Sound,
  Run-Sound, pool_reaches-Sound,
}

abbrev pub flag : Bool → ℕ
flag true = 1
flag false = 0

nat_cases : (n : ℕ) → (n ≡ 0) ⊎ ((m : ℕ) × (n ≡ suc m))
nat_cases zero = inl refl
nat_cases (suc m) = inr (m, refl)

module _ {T : Type 0} where
  -- What is left to do once `closed` is closed.
  abbrev pub work_left : System T → ℕ
  work_left s = 4 * s.holding + flag s.stopping + 3 * length s.pool.tasks + 2 * s.running + s.idle

  -- All workers have left and nobody waits; the tasks accepted are those taken, and each of them has
  -- returned or panicked.
  pub record Drained (s : System T) : Type 0 where
    pub left : s.exited ≡ s.pool.workers
    pub unlocked : s.holding ≡ 0
    pub empty : s.pool.tasks ≡ []
    pub all_taken : s.taken ≡ s.accepted
    pub all_run : s.pool.completed + s.pool.panics ≡ s.pool.submitted

  append_empty : (xs : List T) → xs ++ [] ≡ xs
  append_empty [] = refl
  append_empty (x ∷ xs) = ap (◌∷◌ x) (append_empty xs)

  Sound-Drained : (s : System T) → Sound s → s.holding ≡ 0 → s.running ≡ 0 → s.idle ≡ 0 → Drained s
  Sound-Drained s k h r i =
      let gone : s.exited ≡ s.pool.workers = omega (arith, k.staff, r, i) in
      let empty : s.pool.tasks ≡ [] = elim k.leaving [
        | inl z ↦
            let two : suc s.exited ≡ s.exited = omega (arith, z, gone, k.positive) in
            ground (arith, two)
        | inr (e, c) ↦ e
      ] in
      let all_taken : s.taken ≡ s.accepted =
        sym (k.order ∙ ap (λ xs. s.taken ++ xs) empty ∙ append_empty s.taken) in
      record {
        left = gone;
        unlocked = h;
        empty = empty;
        all_taken = all_taken;
        all_run = omega (arith, k.run_once, r, k.counted, ap length all_taken);
      }

  idle_step :
      (s : System T) (n : ℕ)
      → s.pool.tasks_closed ≡ true
      → s.idle ≡ suc n
      → (t : System T) × Step s t
  unfolding receive
  idle_step s n c i = elim (list_cases s.pool.tasks) [
    | inl e ↦ (_, exit n i e c)
    | inr (x, xs, e) ↦
        let r : receive s.pool ≡ some (x, record s.pool { tasks = xs }) = rw (e, receive) refl in
        (_, take n x _ i r)
  ]

  -- Under way, or drained.
  Sound-moves :
      (s : System T) → Sound s → s.pool.closed ≡ true → Drained s ⊎ ((t : System T) × Step s t)
  Sound-moves s k c = elim (nat_cases s.holding) [
    | inr (n, h) ↦ inr (_, closed_seen n h c)
    | inl h ↦ elim (Bool-cases s.stopping) [
      | inl stopping ↦ inr (_, stop_ends stopping h)
      | inr over ↦
          let shut : s.pool.tasks_closed ≡ true = k.together ∙ ground (arith, k.stopped) in
          elim (nat_cases s.running) [
            | inr (n, r) ↦ inr (_, finish n true r)
            | inl r ↦ elim (nat_cases s.idle) [
              | inr (n, i) ↦ inr (idle_step s n shut i)
              | inl i ↦ inl (Sound-Drained s k h r i)
            ]
          ]
    ]
  ]

  Step-closed : {s t : System T} → Step s t → s.pool.closed ≡ true → t.pool.closed ≡ true
  unfolding drop_task close_closed close_tasks execute_safely
  Step-closed {s} (begin h) c = c
  Step-closed {s} (send n task p h e) c =
      let (o, f, same) = sent_right s.pool p task e in ap (λ q. q.closed) same ∙ c
  Step-closed {s} (send_full n task p h e) c = ap (λ q. q.closed) (full_right s.pool p task e) ∙ c
  Step-closed {s} (send_broken n task p h e) c =
      ap (λ q. q.closed) (panic_right s.pool p task e).1 ∙ c
  Step-closed {s} (ctx_ended n h) c = c
  Step-closed {s} (closed_seen n h e) c = c
  Step-closed {s} (stop_begins h) c = refl
  Step-closed {s} (stop_ends h e) c = c
  Step-closed {s} (take n task p h e) c =
      let (ts, there, same) = received_right s.pool p task e in ap (λ q. q.closed) same ∙ c
  Step-closed {s} (finish n true h) c = c
  Step-closed {s} (finish n false h) c = c
  Step-closed {s} (exit n h e d) c = c

  Step-work_left :
      {s t : System T} → Step s t → Sound s → s.pool.closed ≡ true → work_left t < work_left s
  unfolding drop_task close_closed close_tasks execute_safely is_stopped
  Step-work_left {s} (begin h) k c = ground (arith, h, c)
  Step-work_left {s} (send n task p h e) k c =
      let (o, f, same) = sent_right s.pool p task e in
      omega (arith, h, ap (λ q. length q.tasks) same, length_snoc s.pool.tasks task)
  Step-work_left {s} (send_full n task p h e) k c =
      omega (arith, h, ap (λ q. length q.tasks) (full_right s.pool p task e))
  Step-work_left {s} (send_broken n task p h e) k c =
      omega (arith, h, ap (λ q. length q.tasks) (panic_right s.pool p task e).1)
  Step-work_left {s} (ctx_ended n h) k c = omega (arith, h)
  Step-work_left {s} (closed_seen n h e) k c = omega (arith, h)
  Step-work_left {s} (stop_begins h) k c = cc (c, h)
  Step-work_left {s} (stop_ends h e) k c = omega (arith, ap flag h)
  Step-work_left {s} (take n task p h e) k c =
      let (ts, there, same) = received_right s.pool p task e in
      omega (arith, h, ap (λ q. length q.tasks) same, ap length there)
  Step-work_left {s} (finish n true h) k c = omega (arith, h)
  Step-work_left {s} (finish n false h) k c = omega (arith, h)
  Step-work_left {s} (exit n h e d) k c = omega (arith, h)

  -- The runs from a state in which `closed` is closed.
  Run-closed : {s t : System T} {n : ℕ} → Run s n t → s.pool.closed ≡ true → t.pool.closed ≡ true
  unfolding drop_task
  Run-closed stay c = c
  Run-closed (then_step n t u r x) c = Step-closed x (Run-closed r c)
  Run-closed (then_refused n t u r refused) c = Run-closed r c

  Run-work_left :
      {s t : System T} {n : ℕ}
      → Run s n t
      → Sound s
      → s.pool.closed ≡ true
      → n + work_left t ≤ work_left s
  unfolding drop_task
  Run-work_left stay k c = omega arith
  Run-work_left (then_step n t u r x) k c =
      omega (arith, Run-work_left r k c, Step-work_left x (Run-Sound r k) (Run-closed r c))
  Run-work_left (then_refused n t u r refused) k c = omega (arith, Run-work_left r k c)

  -- `Stop` ends: once it has begun on a pool, in any state reached, a run has only so many steps as there is
  -- work left, but for callers that are refused.
  pub stopping_ends :
      (workers queue_size : ℤ) (m n : ℕ) (s t : System T)
      → Run (start workers queue_size) m s
      → s.pool.closed ≡ true
      → Run s n t
      → n ≤ work_left s
  stopping_ends workers queue_size m n s t r c after =
      omega (arith, Run-work_left after (pool_reaches-Sound workers queue_size m s r) c)

  step_first : {s t u : System T} {n : ℕ} → Step s t → Run t n u → Run s (suc n) u
  step_first x stay = then_step 0 _ _ stay x
  step_first x (then_step n t u r y) = then_step (suc n) t u (step_first x r) y
  step_first x (then_refused n t u r y) = then_refused (suc n) t u (step_first x r) y

  -- Some way from a sound state to a drained one.
  drain_from :
      (fuel : ℕ) (s : System T)
      → Sound s
      → s.pool.closed ≡ true
      → work_left s < fuel
      → (n : ℕ) × (t : System T) × Run s n t × Drained t
  drain_from zero s k c b = ground (arith, b)
  drain_from (suc fuel) s k c b = elim (Sound-moves s k c) [
    | inl d ↦ (0, s, stay, d)
    | inr (t, x) ↦
        let (n, u, r, d) =
          drain_from fuel t (Step-Sound x k) (Step-closed x c)
            (omega (arith, Step-work_left x k c, b)) in
        (suc n, u, step_first x r, d)
  ]

  -- `Drain` gets done: once `Stop` has begun on a pool, in any state reached, either all workers have left and every
  -- accepted task has been run, or another step is possible; and some run leads to the former.
  pub stopped-Drained :
      (workers queue_size : ℤ) (m : ℕ) (s : System T)
      → Run (start workers queue_size) m s
      → s.pool.closed ≡ true
      → (Drained s ⊎ ((t : System T) × Step s t))
        × ((n : ℕ) × (t : System T) × Run s n t × Drained t)
  stopped-Drained workers queue_size m s r c =
      let k = pool_reaches-Sound workers queue_size m s r in
      (Sound-moves s k c, drain_from (suc (work_left s)) s k c (omega arith))
