-- ===== src/Idempotency/Memory/Replay.antt =====
-- What the protocol promises between the calls of different callers: a key that one caller has locked
-- is refused to the others, and a saved response is what later callers get.
use go_libs.Common.{
  ℕ, ◌≡◌, inl, inr, refl, false, none, String, List, arith, pos, ◌≤ℤ◌, lookup, string_discrete,
  Option-cases, All, Distinct, insert-Distinct, lookup-insert_self,
}
use go_libs.Idempotency.{Response}
use go_libs.Idempotency.Memory.{
  MemoryStore, expired, make_room, put, started, saved, lock_key, lock, save_key, save, answers,
  acquired,
}
use go_libs.Idempotency.Memory.Calls.{Call, run_calls}
use go_libs.Idempotency.Memory.Locking.{Holds, Spares, lock_held, run_calls-Holds}

pub lock_fresh-Holds :
    (E : Type 0) (s : MemoryStore) (key : String) (now : ℕ)
    → s.max_entries ≤ℤ pos 0
    → Distinct string_discrete s.records
    → lookup string_discrete key s.records ≡ none
    → Holds s key (started now) (lock {E = E} s none key now).0
unfolding lock lock_key make_room
lock_fresh-Holds E s key now u d miss =
    let unmade : make_room s now ≡ s = ground arith in
    rw (miss, lock_key, unmade)
      (record {
        lock_ttl = refl;
        response_ttl = refl;
        unbounded = u;
        distinct = insert-Distinct string_discrete key _ s.records d;
        held = lookup-insert_self string_discrete key _ s.records;
      })

pub lock_fresh_acquires :
    (E : Type 0) (s : MemoryStore) (key : String) (now : ℕ)
    → lookup string_discrete key s.records ≡ none
    → (lock {E = E} s none key now).1 ≡ acquired
unfolding lock lock_key
lock_fresh_acquires E s key now miss = rw (miss, lock_key) refl

save_puts :
    (s : MemoryStore) (key : String) (response : Response) (now : ℕ)
    → s.max_entries ≤ℤ pos 0
    → save_key s key response now ≡ put s key (saved response now)
unfolding save_key make_room
save_puts s key response now u =
    let unmade : make_room s now ≡ s = ground arith in
    elim (Option-cases (lookup string_discrete key s.records)) [
      | inl miss ↦ rw (miss, save_key, unmade) refl
      | inr (r, held) ↦ rw (held, save_key) refl
    ]

pub save-Holds :
    (E : Type 0) (s : MemoryStore) (key : String) (response : Response) (now : ℕ)
    → s.max_entries ≤ℤ pos 0
    → Distinct string_discrete s.records
    → Holds s key (saved response now) (save {E = E} s none key response now).0
unfolding save
save-Holds E s key response now u d = rw (save_puts s key response now u) (record {
  lock_ttl = refl;
  response_ttl = refl;
  unbounded = u;
  distinct = insert-Distinct string_discrete key _ s.records d;
  held = lookup-insert_self string_discrete key _ s.records;
})

-- In a store without a bound on its entries, the caller whose `Lock` adds a key excludes the others: after
-- any calls that neither end its lock nor find it expired, `Lock` of the key, at a time when it has
-- not expired, answers that the key is in progress and changes nothing.
pub lock_excludes :
    (E : Type 0) (s : MemoryStore) (key : String) (t₀ t₁ : ℕ) (cs : List (Call E))
    → s.max_entries ≤ℤ pos 0
    → Distinct string_discrete s.records
    → lookup string_discrete key s.records ≡ none
    → All (Spares s key (started t₀)) cs
    → expired s t₁ (started t₀) ≡ false
    → let s₁ : MemoryStore = run_calls (lock {E = E} s none key t₀).0 cs in
      ((lock {E = E} s none key t₀).1 ≡ acquired)
      × (lock {E = E} s₁ none key t₁ ≡ (s₁, answers (started t₀)))
unfolding lock lock_key
lock_excludes E s key t₀ t₁ cs u d miss spared live = (
  lock_fresh_acquires E s key t₀ miss,
  lock_held s key (started t₀) E _ t₁ live
      (run_calls-Holds s key (started t₀) E _ cs spared (lock_fresh-Holds E s key t₀ u d miss)),
)

-- In a store without a bound on its entries, a saved response is replayed: after any calls that
-- neither overwrite or delete it nor find it expired, `Lock` of the key, at a time when it has not
-- expired, answers with exactly that response and changes nothing.
pub save_replays :
    (E : Type 0) (s : MemoryStore) (key : String) (response : Response) (t₀ t₁ : ℕ)
    (cs : List (Call E))
    → s.max_entries ≤ℤ pos 0
    → Distinct string_discrete s.records
    → All (Spares s key (saved response t₀)) cs
    → expired s t₁ (saved response t₀) ≡ false
    → let s₁ : MemoryStore = run_calls (save {E = E} s none key response t₀).0 cs in
      lock {E = E} s₁ none key t₁ ≡ (s₁, answers (saved response t₀))
unfolding lock lock_key
save_replays E s key response t₀ t₁ cs u d spared live =
    lock_held s key (saved response t₀) E _ t₁ live
      (run_calls-Holds s key (saved response t₀) E _ cs spared (save-Holds E s key response t₀ u d))
