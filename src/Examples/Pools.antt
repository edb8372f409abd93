-- ===== src/Examples/Pools.antt =====
-- workerpool/workerpool.go at a concrete run: one caller sends task 7, and `Stop` begins. A task is a number.
use go_libs.Common.{ℕ, ◌≤◌, ◌≡◌, refl, true, false, some, ◌⊎◌, [], ◌∷◌, pos}
use go_libs.WorkerPool.{
  Pool, pool_closed, queue_full, new_pool, submit, try_send, is_stopped, drop_task, close_closed,
  close_tasks,
}
use go_libs.WorkerPool.Concurrent.{
  System, start, Step, begin, send, stop_begins, stop_ends, Run, stay, then_step,
}
use go_libs.WorkerPool.Soundness.{Sound, pool_reaches-Sound}
use go_libs.WorkerPool.Draining.{Drained, work_left, stopping_ends, stopped-Drained}

abbrev small_pool : Pool ℕ
small_pool = record {
  workers = 1;
  queue_size = 1;
  tasks = [];
  tasks_closed = false;
  is_closed = false;
  closed = false;
  submitted = 0;
  completed = 0;
  dropped = 0;
  panics = 0;
}

second_has_no_room :
    submit {E = ℕ} (record small_pool { tasks = 7 ∷ [] }) (some 8)
    ≡ some (record small_pool { tasks = 7 ∷ []; dropped = 1 }, some queue_full)
unfolding submit is_stopped try_send drop_task
second_has_no_room = refl

refused_once_stopped :
    submit {E = ℕ} (close_tasks (close_closed small_pool)) (some 8)
    ≡ some (record (close_tasks (close_closed small_pool)) { dropped = 1 }, some pool_closed)
unfolding submit is_stopped drop_task close_tasks close_closed
refused_once_stopped = refl

abbrev waiting : System ℕ
waiting = record {
  pool = small_pool;
  holding = 0;
  stopping = false;
  idle = 1;
  running = 0;
  exited = 0;
  accepted = [];
  taken = [];
  broken = false;
}

abbrev sending : System ℕ
sending = record waiting { holding = 1 }

abbrev queued : System ℕ
queued = record waiting {
  pool = record small_pool { tasks = 7 ∷ []; submitted = 1 };
  accepted = 7 ∷ [];
}

abbrev stopping : System ℕ
stopping = record queued {
  pool = record small_pool { tasks = 7 ∷ []; submitted = 1; closed = true };
  stopping = true;
}

start_waits : start (pos 1) (pos 1) ≡ waiting
unfolding start new_pool
start_waits = refl

one_sent : Run (start (pos 1) (pos 1)) 3 stopping
unfolding start new_pool is_stopped try_send close_closed
one_sent =
    let begun : Step waiting sending = begin refl in
    let put : Step sending queued = send 0 7 _ refl refl in
    let stop : Step queued stopping = stop_begins refl in
    then_step 2 queued stopping
      (then_step 1 sending queued (then_step 0 waiting sending stay begun) put) stop

abbrev locked : System ℕ
locked = record stopping {
  pool = record small_pool {
    tasks = 7 ∷ [];
    submitted = 1;
    closed = true;
    is_closed = true;
    tasks_closed = true;
  };
  stopping = false;
}

one_step : Run stopping 1 locked
unfolding close_tasks
one_step = then_step 0 stopping locked stay (stop_ends refl refl)

pool_reaches-Sound_example : Sound stopping
pool_reaches-Sound_example = pool_reaches-Sound (pos 1) (pos 1) 3 stopping one_sent

stopping_ends_example : 1 ≤ work_left stopping
stopping_ends_example = stopping_ends (pos 1) (pos 1) 3 1 stopping locked one_sent refl one_step

stopped-Drained_example :
    (Drained stopping ⊎ ((t : System ℕ) × Step stopping t))
    × ((n : ℕ) × (t : System ℕ) × Run stopping n t × Drained t)
stopped-Drained_example = stopped-Drained (pos 1) (pos 1) 3 stopping one_sent refl
