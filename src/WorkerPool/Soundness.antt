-- ===== src/WorkerPool/Soundness.antt =====
-- What holds in every state that the callers and workers of a pool reach.
use go_libs.Common.{
  ℕ, suc, ◌+◌, ◌≡◌, ◌≤◌, ◌<◌, refl, ap, ◌∙◌, Bool, true, false, ◌||◌, some, ◌⊎◌, inl, inr, List, [],
  ◌∷◌, ◌++◌, length, length-append, ℤ, arith,
}
use go_libs.WorkerPool.{
  Pool, sent, no_room, send_panics, new_pool, drop_task, is_stopped, try_send, close_closed,
  close_tasks, receive, execute_safely,
}
use go_libs.WorkerPool.Concurrent.{
  System, start, Step, begin, send, send_full, send_broken, ctx_ended, closed_seen, stop_begins,
  stop_ends, take, finish, exit, Refused, refused, Run, stay, then_step, then_refused,
}

module _ {T : Type 0} where
  -- There are workers; no send has hit a closed channel, and none can; the queue keeps its bound; the tasks accepted are those
  -- taken, in order, and then those queued; every task taken is being run, or has been run once.
  pub record Sound (s : System T) : Type 0 where
    pub positive : 0 < s.pool.workers
    pub unbroken : s.broken ≡ false
    pub locked : (s.pool.tasks_closed ≡ false) ⊎ (s.holding ≡ 0)
    pub stopped : s.pool.closed ≡ (s.stopping || s.pool.is_closed)
    pub together : s.pool.tasks_closed ≡ s.pool.is_closed
    pub once : (s.stopping ≡ false) ⊎ (s.pool.is_closed ≡ false)
    pub room : length s.pool.tasks ≤ s.pool.queue_size
    pub order : s.accepted ≡ s.taken ++ s.pool.tasks
    pub staff : s.idle + s.running + s.exited ≡ s.pool.workers
    pub run_once : s.pool.completed + s.pool.panics + s.running ≡ length s.taken
    pub counted : s.pool.submitted ≡ length s.accepted
    pub leaving : (s.exited ≡ 0) ⊎ ((s.pool.tasks ≡ []) × (s.pool.tasks_closed ≡ true))

  pub sent_right :
      (p q : Pool T) (task : T)
      → try_send p task ≡ (q, sent)
      → (p.tasks_closed ≡ false)
        × (length p.tasks < p.queue_size)
        × (q ≡ record p { tasks = p.tasks ++ (task ∷ []); submitted = p.submitted + 1 })
  unfolding try_send
  sent_right p q task h = (ground (arith, h), ground (arith, h), ground (arith, h))

  pub full_right : (p q : Pool T) (task : T) → try_send p task ≡ (q, no_room) → q ≡ drop_task p
  unfolding try_send
  full_right p q task h = ground (arith, h)

  pub panic_right :
      (p q : Pool T) (task : T)
      → try_send p task ≡ (q, send_panics)
      → (p.tasks_closed ≡ true) × (q ≡ p)
  unfolding try_send
  panic_right p q task h = (ground (arith, h), ground (arith, h))

  pub list_cases : (ts : List T) → (ts ≡ []) ⊎ ((x : T) × (xs : List T) × (ts ≡ x ∷ xs))
  list_cases [] = inl refl
  list_cases (x ∷ xs) = inr (x, xs, refl)

  pub received_right :
      (p q : Pool T) (task : T)
      → receive p ≡ some (task, q)
      → (ts : List T) × (p.tasks ≡ task ∷ ts) × (q ≡ record p { tasks = ts })
  unfolding receive
  received_right p q task h = elim (list_cases p.tasks) [
    | inl e ↦ cc (rw (receive, e) at h)
    | inr (x, xs, e) ↦
        let g : some (x, record p { tasks = xs }) ≡ some (task, q) = rw (receive, e) at h in
        (xs, e ∙ ap (λ y. y ∷ xs) (cc g), cc g)
  ]

  snoc_assoc : (xs ys : List T) (x : T) → (xs ++ ys) ++ (x ∷ []) ≡ xs ++ (ys ++ (x ∷ []))
  snoc_assoc [] ys x = refl
  snoc_assoc (y ∷ xs) ys x = ap (◌∷◌ y) (snoc_assoc xs ys x)

  cons_assoc : (xs ys : List T) (x : T) → xs ++ (x ∷ ys) ≡ (xs ++ (x ∷ [])) ++ ys
  cons_assoc [] ys x = refl
  cons_assoc (y ∷ xs) ys x = ap (◌∷◌ y) (cons_assoc xs ys x)

  pub length_snoc : (xs : List T) (x : T) → length (xs ++ (x ∷ [])) ≡ suc (length xs)
  length_snoc xs x = length-append xs (x ∷ []) ∙ omega arith

  new_pool-Sound : (workers queue_size : ℤ) → Sound (start workers queue_size)
  unfolding start new_pool
  new_pool-Sound workers queue_size = record {
    positive = ground arith;
    unbroken = refl;
    locked = inl refl;
    stopped = refl;
    together = refl;
    once = inl refl;
    room = omega arith;
    order = refl;
    staff = omega arith;
    run_once = refl;
    counted = refl;
    leaving = inl refl;
  }

  sent-Sound :
      (s : System T) (n : ℕ) (task : T)
      → Sound s
      → s.holding ≡ suc n
      → s.pool.tasks_closed ≡ false
      → length s.pool.tasks < s.pool.queue_size
      → Sound (record s {
        pool = record s.pool {
          tasks = s.pool.tasks ++ (task ∷ []);
          submitted = s.pool.submitted + 1;
        };
        holding = n;
        accepted = s.accepted ++ (task ∷ []);
      })
  sent-Sound s n task k h open_ free = record {
    positive = k.positive;
    unbroken = k.unbroken;
    locked = inl open_;
    stopped = k.stopped;
    together = k.together;
    once = k.once;
    room = omega (arith, length_snoc s.pool.tasks task, free);
    order = ap (λ xs. xs ++ (task ∷ [])) k.order ∙ snoc_assoc s.taken s.pool.tasks task;
    staff = k.staff;
    run_once = k.run_once;
    counted = omega (arith, length_snoc s.accepted task, k.counted);
    leaving = inl (ground (arith, k.leaving));
  }

  taken-Sound :
      (s : System T) (n : ℕ) (task : T) (ts : List T)
      → Sound s
      → s.idle ≡ suc n
      → s.pool.tasks ≡ task ∷ ts
      → Sound (record s {
        pool = record s.pool { tasks = ts };
        idle = n;
        running = suc s.running;
        taken = s.taken ++ (task ∷ []);
      })
  taken-Sound s n task ts k h e = record {
    positive = k.positive;
    unbroken = k.unbroken;
    locked = k.locked;
    stopped = k.stopped;
    together = k.together;
    once = k.once;
    room = omega (arith, ap length e, k.room);
    order = k.order ∙ ap (λ xs. s.taken ++ xs) e ∙ cons_assoc s.taken ts task;
    staff = omega (arith, k.staff, h);
    run_once = omega (arith, length_snoc s.taken task, k.run_once);
    counted = k.counted;
    leaving = inl (ground (arith, k.leaving, e));
  }

  dropped-Sound :
      (s : System T) (n : ℕ)
      → Sound s
      → s.holding ≡ suc n
      → Sound (record s { pool = drop_task s.pool; holding = n })
  unfolding drop_task
  dropped-Sound s n k h = record {
    positive = k.positive;
    unbroken = k.unbroken;
    locked = inl (ground (arith, k.locked));
    stopped = k.stopped;
    together = k.together;
    once = k.once;
    room = k.room;
    order = k.order;
    staff = k.staff;
    run_once = k.run_once;
    counted = k.counted;
    leaving = k.leaving;
  }

  finished-Sound :
      (s : System T) (n : ℕ) (returned : Bool)
      → Sound s
      → s.running ≡ suc n
      → Sound (record s { pool = execute_safely s.pool returned; running = n; idle = suc s.idle })
  unfolding execute_safely
  finished-Sound s n true k h = record {
    positive = k.positive;
    unbroken = k.unbroken;
    locked = k.locked;
    stopped = k.stopped;
    together = k.together;
    once = k.once;
    room = k.room;
    order = k.order;
    staff = omega (arith, k.staff, h);
    run_once = omega (arith, k.run_once, h);
    counted = k.counted;
    leaving = k.leaving;
  }
  finished-Sound s n false k h = record {
    positive = k.positive;
    unbroken = k.unbroken;
    locked = k.locked;
    stopped = k.stopped;
    together = k.together;
    once = k.once;
    room = k.room;
    order = k.order;
    staff = omega (arith, k.staff, h);
    run_once = omega (arith, k.run_once, h);
    counted = k.counted;
    leaving = k.leaving;
  }

  pub Step-Sound : {s t : System T} → Step s t → Sound s → Sound t
  unfolding drop_task close_closed close_tasks execute_safely is_stopped
  Step-Sound {s} (begin h) k = record {
    positive = k.positive;
    unbroken = k.unbroken;
    locked = inl (ground (arith, h, k.together));
    stopped = k.stopped;
    together = k.together;
    once = k.once;
    room = k.room;
    order = k.order;
    staff = k.staff;
    run_once = k.run_once;
    counted = k.counted;
    leaving = k.leaving;
  }
  Step-Sound {s} (send n task p h e) k =
      let (o, free, same) = sent_right s.pool p task e in rw same (sent-Sound s n task k h o free)
  Step-Sound {s} (send_full n task p h e) k =
      rw (full_right s.pool p task e) (dropped-Sound s n k h)
  Step-Sound {s} (send_broken n task p h e) k = elim k.locked [
    | inl o ↦ cc (o, (panic_right s.pool p task e).0)
    | inr z ↦ cc (z, h)
  ]
  Step-Sound {s} (ctx_ended n h) k = dropped-Sound s n k h
  Step-Sound {s} (closed_seen n h e) k = dropped-Sound s n k h
  Step-Sound {s} (stop_begins h) k = record {
    positive = k.positive;
    unbroken = k.unbroken;
    locked = k.locked;
    stopped = refl;
    together = k.together;
    once = inr (ground (arith, k.stopped, h));
    room = k.room;
    order = k.order;
    staff = k.staff;
    run_once = k.run_once;
    counted = k.counted;
    leaving = k.leaving;
  }
  Step-Sound {s} (stop_ends h e) k = record {
    positive = k.positive;
    unbroken = k.unbroken;
    locked = inr e;
    stopped = k.stopped ∙ rw h refl;
    together = refl;
    once = inl refl;
    room = k.room;
    order = k.order;
    staff = k.staff;
    run_once = k.run_once;
    counted = k.counted;
    leaving = ground (arith, k.leaving);
  }
  Step-Sound {s} (take n task p h e) k =
      let (ts, there, same) = received_right s.pool p task e in
      rw same (taken-Sound s n task ts k h there)
  Step-Sound {s} (finish n returned h) k = finished-Sound s n returned k h
  Step-Sound {s} (exit n h e c) k = record {
    positive = k.positive;
    unbroken = k.unbroken;
    locked = k.locked;
    stopped = k.stopped;
    together = k.together;
    once = k.once;
    room = k.room;
    order = k.order;
    staff = omega (arith, k.staff, h);
    run_once = k.run_once;
    counted = k.counted;
    leaving = inr (e, c);
  }

  Refused-Sound : {s t : System T} → Refused s t → Sound s → Sound t
  unfolding drop_task
  Refused-Sound {s} refused k = record {
    positive = k.positive;
    unbroken = k.unbroken;
    locked = k.locked;
    stopped = k.stopped;
    together = k.together;
    once = k.once;
    room = k.room;
    order = k.order;
    staff = k.staff;
    run_once = k.run_once;
    counted = k.counted;
    leaving = k.leaving;
  }

  pub Run-Sound : {s t : System T} {n : ℕ} → Run s n t → Sound s → Sound t
  Run-Sound stay k = k
  Run-Sound (then_step n t u r x) k = Step-Sound x (Run-Sound r k)
  Run-Sound (then_refused n t u r x) k = Refused-Sound x (Run-Sound r k)

  -- However callers, workers and `Stop` interleave on a new pool, no send hits a closed channel, the queue keeps
  -- its bound, and workers take the tasks in the order in which they were accepted, each of them once.
  pub pool_reaches-Sound :
      (workers queue_size : ℤ) (n : ℕ) (s : System T) → Run (start workers queue_size) n s → Sound s
  pool_reaches-Sound workers queue_size n s r = Run-Sound r (new_pool-Sound workers queue_size)
