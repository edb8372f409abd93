-- ===== src/WorkerPool/Concurrent.antt =====
-- Callers, workers and `Stop` of workerpool/workerpool.go, interleaved.
use go_libs.Common.{ℕ, suc, ◌≡◌, Bool, true, false, some, List, [], ◌∷◌, ◌++◌, ℤ}
use go_libs.WorkerPool.{
  Pool, sent, no_room, send_panics, new_pool, drop_task, is_stopped, try_send, close_closed,
  close_tasks, receive, execute_safely,
}

-- `holding` callers are past the tests of `Submit` or `SubmitContext` and hold the read lock; `stopping` says
-- that `Stop` has closed `closed` and wants the lock. `accepted` lists the tasks sent and `taken` those that
-- workers received, both in order; `broken` says that a send hit a closed channel.
pub record System (T : Type 0) : Type 0 where
  pub pool : Pool T
  pub holding : ℕ
  pub stopping : Bool
  pub idle : ℕ
  pub running : ℕ
  pub exited : ℕ
  pub accepted : List T
  pub taken : List T
  pub broken : Bool

module _ {T : Type 0} where
  -- `New`, with its workers waiting.
  unfoldable pub start : ℤ → ℤ → System T
  start workers queue_size =
      let p : Pool T = new_pool workers queue_size in
      record {
        pool = p;
        holding = 0;
        stopping = false;
        idle = p.workers;
        running = 0;
        exited = 0;
        accepted = [];
        taken = [];
        broken = false;
      }

  -- Steps that do not refuse a caller at once. Which task a caller sends is left open.
  pub data Step (s : System T) : System T → Type 0 where
    begin : is_stopped s.pool ≡ false → Step s (record s { holding = suc s.holding })
    send :
        (n : ℕ) (task : T) (p : Pool T)
        → s.holding ≡ suc n
        → try_send s.pool task ≡ (p, sent)
        → Step s (record s { pool = p; holding = n; accepted = s.accepted ++ (task ∷ []) })
    send_full :
        (n : ℕ) (task : T) (p : Pool T)
        → s.holding ≡ suc n
        → try_send s.pool task ≡ (p, no_room)
        → Step s (record s { pool = p; holding = n })
    send_broken :
        (n : ℕ) (task : T) (p : Pool T)
        → s.holding ≡ suc n
        → try_send s.pool task ≡ (p, send_panics)
        → Step s (record s { pool = p; holding = n; broken = true })
    ctx_ended :
        (n : ℕ) → s.holding ≡ suc n → Step s (record s { pool = drop_task s.pool; holding = n })
    closed_seen :
        (n : ℕ)
        → s.holding ≡ suc n
        → s.pool.closed ≡ true
        → Step s (record s { pool = drop_task s.pool; holding = n })
    stop_begins :
        s.pool.closed ≡ false → Step s (record s { pool = close_closed s.pool; stopping = true })
    stop_ends :
        s.stopping ≡ true
        → s.holding ≡ 0
        → Step s (record s { pool = close_tasks s.pool; stopping = false })
    take :
        (n : ℕ) (task : T) (p : Pool T)
        → s.idle ≡ suc n
        → receive s.pool ≡ some (task, p)
        → Step s (record s {
          pool = p;
          idle = n;
          running = suc s.running;
          taken = s.taken ++ (task ∷ []);
        })
    finish :
        (n : ℕ) (returned : Bool)
        → s.running ≡ suc n
        → Step s
            (record s { pool = execute_safely s.pool returned; running = n; idle = suc s.idle })
    exit :
        (n : ℕ)
        → s.idle ≡ suc n
        → s.pool.tasks ≡ []
        → s.pool.tasks_closed ≡ true
        → Step s (record s { idle = n; exited = suc s.exited })

  -- A caller that is refused before it holds the lock, or at its tests.
  pub data Refused (s : System T) : System T → Type 0 where
    refused : Refused s (record s { pool = drop_task s.pool })

  -- A run with its number of steps that refuse nobody.
  pub data Run (s : System T) : ℕ → System T → Type 0 where
    stay : Run s 0 s
    then_step : (n : ℕ) (t u : System T) → Run s n t → Step t u → Run s (suc n) u
    then_refused : (n : ℕ) (t u : System T) → Run s n t → Refused t u → Run s n u
