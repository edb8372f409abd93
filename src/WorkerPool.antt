-- ===== src/WorkerPool.antt =====
-- workerpool/workerpool.go: the pool, its queue and its shutdown. The metrics are counters; the gauge of the
-- queue, the logger and the panic handler stay out. `T` is the type of tasks.
pub mod Concurrent
pub mod Soundness
pub mod Draining
use go_libs.Common.{
  ℕ, suc, ◌+◌, ◌*◌, ◌≡◌, refl, Bool, true, false, ◌||◌, Option, none, some, List, [], ◌∷◌, ◌++◌,
  if◌then◌else◌, ltb, length, ℤ, pos, leb_ℤ, default_ℤ, to_ℕ,
}

-- `tasks` is what the channel holds, `tasks_closed` that it is closed, and `closed` that the channel of this
-- name is closed.
pub record Pool (T : Type 0) : Type 0 where
  pub workers : ℕ
  pub queue_size : ℕ
  pub tasks : List T
  pub tasks_closed : Bool
  pub is_closed : Bool
  pub closed : Bool
  pub submitted : ℕ
  pub completed : ℕ
  pub dropped : ℕ
  pub panics : ℕ

pub data SubmitError (E : Type 0) : Type 0 where
  nil_task : SubmitError E
  pool_closed : SubmitError E
  queue_full : SubmitError E
  ctx_error : E → SubmitError E

-- What becomes of a send: it is done, there is no room, or the channel is closed and the send panics.
pub data SendResult : Type 0 where
  sent : SendResult
  no_room : SendResult
  send_panics : SendResult

module _ {T : Type 0} where
  -- The workers are started by `start` of WorkerPool/Concurrent.antt.
  unfoldable pub new_pool : ℤ → ℤ → Pool T
  new_pool workers queue_size =
      let n = default_ℤ workers (pos 1) in
      record {
        workers = to_ℕ n;
        queue_size = to_ℕ (default_ℤ queue_size (pos (to_ℕ n * 2)));
        tasks = [];
        tasks_closed = false;
        is_closed = false;
        closed = false;
        submitted = 0;
        completed = 0;
        dropped = 0;
        panics = 0;
      }

  unfoldable pub drop_task : Pool T → Pool T
  drop_task p = record p { dropped = p.dropped + 1 }

  -- The tests of `isClosed` and of the channel `closed`, under the read lock.
  unfoldable pub is_stopped : Pool T → Bool
  is_stopped p = p.is_closed || p.closed

  -- `p.tasks <- task` in a `select` with a default.
  unfoldable pub try_send : Pool T → T → Pool T × SendResult
  try_send p task =
      if p.tasks_closed
      then (p, send_panics)
      else if ltb (length p.tasks) p.queue_size
      then (record p { tasks = p.tasks ++ (task ∷ []); submitted = p.submitted + 1 }, sent)
      else (drop_task p, no_room)

  abbrev send_error : {E : Type 0} → Pool T × SendResult → Option (Pool T × Option (SubmitError E))
  send_error (p, sent) = some (p, none)
  send_error (p, no_room) = some (p, some queue_full)
  send_error (p, send_panics) = none

  -- `Submit`, as a caller runs it that no other interleaves with. `none` is a panic, and a nil task is `none`.
  unfoldable pub submit :
      {E : Type 0} → Pool T → Option T → Option (Pool T × Option (SubmitError E))
  submit p none = some (p, some nil_task)
  submit p (some task) =
      if is_stopped p then some (drop_task p, some pool_closed) else send_error (try_send p task)

  -- `SubmitContext` up to its last `select`: the error that ends it, or `none`.
  unfoldable pub begin_submit :
      {E : Type 0} → Pool T → Option T → Option E → Pool T × Option (SubmitError E)
  begin_submit p none ctx = (p, some nil_task)
  begin_submit p (some task) (some e) = (drop_task p, some (ctx_error e))
  begin_submit p (some task) none =
      if is_stopped p then (drop_task p, some pool_closed) else (p, none)

  -- The two parts of `Stop`, before the lock and under it.
  unfoldable pub close_closed : Pool T → Pool T
  close_closed p = record p { closed = true }

  unfoldable pub close_tasks : Pool T → Pool T
  close_tasks p = record p { is_closed = true; tasks_closed = true }

  unfoldable pub is_pool_closed : Pool T → Bool
  is_pool_closed p = if p.is_closed then true else p.closed

  -- A worker's receive: the oldest task, if there is one.
  unfoldable pub receive : Pool T → Option (T × Pool T)
  receive p = elim p.tasks [ [] ↦ none | t ∷ ts ↦ some (t, record p { tasks = ts }) ]

  -- `executeSafely` of a task that returns (`true`) or panics.
  unfoldable pub execute_safely : Pool T → Bool → Pool T
  execute_safely p true = record p { completed = p.completed + 1 }
  execute_safely p false = record p { panics = p.panics + 1 }
