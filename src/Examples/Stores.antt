-- ===== src/Examples/Stores.antt =====
-- idempotency/memory.go at concrete inputs. An error is a number.
use go_libs.Common.{
  ℕ, suc, ◌≡◌, refl, none, List, [], ◌∷◌, arith, pos, lookup, length, string_discrete, string_ne,
  delete_if, inl,
}
use go_libs.Idempotency.{Response}
use go_libs.Idempotency.Memory.{
  MemoryStore, lock, save, new_memory_store, with_max_entries, with_lock_ttl, with_response_ttl,
  started, saved, acquired, answers, lock_expired, response_expired, evict_expired, scan_oldest,
  count_if,
}
use go_libs.Idempotency.Memory.Calls.{
  Call, lock_call, save_call, unlock_call, evict_call, run_calls,
}
use go_libs.Idempotency.Memory.Capacity.{Bounded}
use go_libs.Idempotency.Memory.Limit.{run_calls-Bounded, empty_key_overflows}
use go_libs.Idempotency.Memory.Replay.{lock_excludes, save_replays}

-- Locks live for 10, responses for 50, and there is room for one record.
abbrev small : MemoryStore
small = record { records = []; lock_ttl = pos 10; response_ttl = pos 50; max_entries = pos 1 }

abbrev pub unlimited : MemoryStore
unlimited = record small { max_entries = pos 0 }

small_is_new :
    new_memory_store
      (with_lock_ttl (pos 10) ∷ with_response_ttl (pos 50) ∷ with_max_entries (pos 1) ∷ [])
    ≡ small
unfolding new_memory_store with_lock_ttl with_response_ttl with_max_entries
small_is_new = refl

abbrev pub ok : Response
ok = record { status_code = 201; headers = []; body = 1 ∷ 2 ∷ [] }

abbrev pub others : List (Call ℕ)
others = lock_call none "b" 3 ∷ save_call none "b" ok 4 ∷ unlock_call none "c" ∷ evict_call 6 ∷ []

run_calls-Bounded_example : Bounded 0 (run_calls small others)
unfolding lookup
run_calls-Bounded_example =
    run_calls-Bounded ℕ 0 small others
      (string_ne "b" "" refl, (string_ne "b" "" refl, (tt, (tt, tt))))
      (record { bound = refl; within = omega arith; named = refl })

lock_excludes_example :
    let s₁ : MemoryStore = run_calls (lock {E = ℕ} unlimited none "a" 1).0 others in
    ((lock {E = ℕ} unlimited none "a" 1).1 ≡ acquired)
    × (lock {E = ℕ} s₁ none "a" 9 ≡ (s₁, answers (started 1)))
unfolding lookup lock_expired response_expired
lock_excludes_example =
    lock_excludes ℕ unlimited "a" 1 9 others (omega arith) tt refl
      (
        inl (string_ne "a" "b" refl),
        (string_ne "a" "b" refl, (inl (string_ne "a" "c" refl), (refl, tt))),
      )
      refl

save_replays_example :
    let s₁ : MemoryStore = run_calls (save {E = ℕ} unlimited none "a" ok 1).0 others in
    lock {E = ℕ} s₁ none "a" 40 ≡ (s₁, answers (saved ok 1))
unfolding lookup lock_expired response_expired
save_replays_example =
    save_replays ℕ unlimited "a" ok 1 40 others (omega arith) tt
      (
        inl (string_ne "a" "b" refl),
        (string_ne "a" "b" refl, (inl (string_ne "a" "c" refl), (refl, tt))),
      )
      refl

-- A store whose one record goes by the empty key.
abbrev unnamed : MemoryStore
unnamed = record small { records = ("", started 5) ∷ [] }

empty_key_overflows_example : length (lock {E = ℕ} unnamed none "a" 7).0.records ≡ suc 1
unfolding lookup evict_expired scan_oldest lock_expired response_expired string_discrete count_if
    delete_if
empty_key_overflows_example =
    empty_key_overflows ℕ unnamed "a" 5 7 (omega arith) (omega arith) refl refl refl
