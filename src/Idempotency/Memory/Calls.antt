-- ===== src/Idempotency/Memory/Calls.antt =====
-- The methods of a `MemoryStore` as one type of calls. They run one after another, in the order in
-- which the callers get the mutex.
use go_libs.Common.{ℕ, Option, String, List, [], ◌∷◌}
use go_libs.Idempotency.{Response}
use go_libs.Idempotency.Memory.{MemoryStore, lock, save, unlock, delete_record, evict_expired}

pub data Call (E : Type 0) : Type 0 where
  lock_call : Option E → String → ℕ → Call E
  save_call : Option E → String → Response → ℕ → Call E
  unlock_call : Option E → String → Call E
  delete_call : Option E → String → Call E
  evict_call : ℕ → Call E

module _ {E : Type 0} where
  unfoldable pub run_call : MemoryStore → Call E → MemoryStore
  run_call s (lock_call ctx key now) = (lock s ctx key now).0
  run_call s (save_call ctx key response now) = (save s ctx key response now).0
  run_call s (unlock_call ctx key) = (unlock s ctx key).0
  run_call s (delete_call ctx key) = (delete_record s ctx key).0
  run_call s (evict_call now) = (evict_expired s now).0

  unfoldable pub run_calls : MemoryStore → List (Call E) → MemoryStore
  run_calls s [] = s
  run_calls s (c ∷ cs) = run_calls (run_call s c) cs
