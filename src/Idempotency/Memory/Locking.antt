-- ===== src/Idempotency/Memory/Locking.antt =====
-- A record that no call may take away stays in the store. The store has no bound on its entries, so
-- nothing is evicted to make room.
use go_libs.Common.{
  ℕ, ◌≡◌, ◌≢◌, ◌⊎◌, inl, inr, refl, ◌∙◌, subst, false, none, some, String, List, [], ◌∷◌, arith,
  pos, ◌≤ℤ◌, lookup, delete, string_discrete, Option-cases, All, Distinct, insert-Distinct,
  delete-Distinct, delete_if-Distinct, lookup-insert_ne, lookup-delete_ne, lookup-delete_if,
}
use go_libs.Idempotency.{Response, completed}
use go_libs.Idempotency.Memory.{
  is_in_progress, MemoryRecord, MemoryStore, expired, evict_expired, make_room, put, started, saved,
  relock, lock_key, lock, save_key, save, answers, unlock_key, unlock, delete_record, lock_expired,
  response_expired,
}
use go_libs.Idempotency.Memory.Calls.{
  Call, lock_call, save_call, unlock_call, delete_call, evict_call, run_call, run_calls,
}

-- The store holds `rec` under `key`, with the settings of `s₀`.
pub record Holds (s₀ : MemoryStore) (key : String) (rec : MemoryRecord) (s : MemoryStore)
    : Type 0 where
  pub lock_ttl : s.lock_ttl ≡ s₀.lock_ttl
  pub response_ttl : s.response_ttl ≡ s₀.response_ttl
  pub unbounded : s.max_entries ≤ℤ pos 0
  pub distinct : Distinct string_discrete s.records
  pub held : lookup string_discrete key s.records ≡ some rec

-- A call that leaves `rec` under `key` alone: it is about another key; or it locks or evicts at a
-- time when `rec` is not expired; or it unlocks the key of a completed record.
abbrev pub Spares : {E : Type 0} → MemoryStore → String → MemoryRecord → Call E → Type 0
Spares s₀ key rec (lock_call ctx k now) = (key ≢ k) ⊎ (expired s₀ now rec ≡ false)
Spares s₀ key rec (save_call ctx k response now) = key ≢ k
Spares s₀ key rec (unlock_call ctx k) = (key ≢ k) ⊎ (rec.status ≡ completed)
Spares s₀ key rec (delete_call ctx k) = key ≢ k
Spares s₀ key rec (evict_call now) = expired s₀ now rec ≡ false

no_room_made : (s : MemoryStore) (now : ℕ) → s.max_entries ≤ℤ pos 0 → make_room s now ≡ s
unfolding make_room
no_room_made s now u = ground arith

module _ (s₀ : MemoryStore) (key : String) (rec : MemoryRecord) where
  put-Holds :
      (s : MemoryStore) (k : String) (r : MemoryRecord)
      → key ≢ k
      → Holds s₀ key rec s
      → Holds s₀ key rec (put s k r)
  put-Holds s k r ne h = record {
    lock_ttl = h.lock_ttl;
    response_ttl = h.response_ttl;
    unbounded = h.unbounded;
    distinct = insert-Distinct string_discrete k r s.records h.distinct;
    held = lookup-insert_ne string_discrete k key r s.records ne ∙ h.held;
  }

  drop-Holds :
      (s : MemoryStore) (k : String)
      → key ≢ k
      → Holds s₀ key rec s
      → Holds s₀ key rec (record s { records = delete string_discrete k s.records })
  drop-Holds s k ne h = record {
    lock_ttl = h.lock_ttl;
    response_ttl = h.response_ttl;
    unbounded = h.unbounded;
    distinct = delete-Distinct string_discrete k s.records h.distinct;
    held = lookup-delete_ne string_discrete k key s.records ne ∙ h.held;
  }

  expired_same :
      (s : MemoryStore) (now : ℕ) (r : MemoryRecord)
      → Holds s₀ key rec s
      → expired s now r ≡ expired s₀ now r
  unfolding lock_expired response_expired
  expired_same s now r h = rw (h.lock_ttl, h.response_ttl)

  evict-Holds :
      (s : MemoryStore) (now : ℕ)
      → expired s₀ now rec ≡ false
      → Holds s₀ key rec s
      → Holds s₀ key rec (evict_expired s now).0
  unfolding evict_expired
  evict-Holds s now e h = record {
    lock_ttl = h.lock_ttl;
    response_ttl = h.response_ttl;
    unbounded = h.unbounded;
    distinct = delete_if-Distinct string_discrete (expired s now) s.records h.distinct;
    held =
        lookup-delete_if string_discrete (expired s now) key s.records h.distinct
        ∙ rw (h.held, expired_same s now rec h ∙ e);
  }

  save_key-Holds :
      (s : MemoryStore) (k : String) (response : Response) (now : ℕ)
      → key ≢ k
      → Holds s₀ key rec s
      → Holds s₀ key rec (save_key s k response now)
  unfolding save_key
  save_key-Holds s k response now ne h = elim (Option-cases (lookup string_discrete k s.records)) [
    | inl miss ↦
        rw (miss, save_key, no_room_made s now h.unbounded)
          (put-Holds s k (saved response now) ne h)
    | inr (r, held) ↦ rw (held, save_key) (put-Holds s k (saved response now) ne h)
  ]

  unlock_other-Holds :
      (s : MemoryStore) (k : String)
      → key ≢ k
      → Holds s₀ key rec s
      → Holds s₀ key rec (unlock_key s k)
  unfolding unlock_key
  unlock_other-Holds s k ne h = ground (arith, h, drop-Holds s k ne h)

  unlock_done :
      (s : MemoryStore) → rec.status ≡ completed → Holds s₀ key rec s → unlock_key s key ≡ s
  unfolding unlock_key
  unlock_done s done h =
      let kept : is_in_progress rec.status ≡ false = rw (done, is_in_progress) refl in
      rw (h.held, unlock_key) (rw (kept, is_in_progress) refl)

  unlock_key-Holds :
      (s : MemoryStore) (k : String)
      → (key ≢ k) ⊎ (rec.status ≡ completed)
      → Holds s₀ key rec s
      → Holds s₀ key rec (unlock_key s k)
  unlock_key-Holds s k (inl ne) h = unlock_other-Holds s k ne h
  unlock_key-Holds s k (inr done) h = elim (string_discrete key k) [
    | yes p ↦ subst (λ j. Holds s₀ key rec (unlock_key s j)) p (rw (unlock_done s done h) h)
    | no ne ↦ unlock_other-Holds s k ne h
  ]

  module _ (E : Type 0) where
    relock_held :
        (s : MemoryStore) (now : ℕ)
        → expired s now rec ≡ false
        → relock {E = E} s key now rec ≡ (s, answers rec)
    unfolding relock
    relock_held s now e = ground arith

    -- `Lock` on a key whose record is not expired answers with the record.
    pub lock_held :
        (s : MemoryStore) (now : ℕ)
        → expired s₀ now rec ≡ false
        → Holds s₀ key rec s
        → lock_key {E = E} s key now ≡ (s, answers rec)
    unfolding lock_key
    lock_held s now e h = rw (h.held, lock_key) (relock_held s now (expired_same s now rec h ∙ e))

    relock-Holds :
        (s : MemoryStore) (k : String) (now : ℕ) (r : MemoryRecord)
        → key ≢ k
        → Holds s₀ key rec s
        → Holds s₀ key rec (relock {E = E} s k now r).0
    unfolding relock
    relock-Holds s k now r ne h = ground (
      arith,
      h,
      put-Holds s k (record r { updated_at = now }) ne h,
      put-Holds _ k (started now) ne (drop-Holds s k ne h),
    )

    lock_other-Holds :
        (s : MemoryStore) (k : String) (now : ℕ)
        → key ≢ k
        → Holds s₀ key rec s
        → Holds s₀ key rec (lock_key {E = E} s k now).0
    unfolding lock_key
    lock_other-Holds s k now ne h = elim (Option-cases (lookup string_discrete k s.records)) [
      | inl miss ↦
          rw (miss, lock_key, no_room_made s now h.unbounded) (put-Holds s k (started now) ne h)
      | inr (r, held) ↦ rw (held, lock_key) (relock-Holds s k now r ne h)
    ]

    lock_key-Holds :
        (s : MemoryStore) (k : String) (now : ℕ)
        → (key ≢ k) ⊎ (expired s₀ now rec ≡ false)
        → Holds s₀ key rec s
        → Holds s₀ key rec (lock_key {E = E} s k now).0
    lock_key-Holds s k now (inl ne) h = lock_other-Holds s k now ne h
    lock_key-Holds s k now (inr e) h = elim (string_discrete key k) [
      | yes p ↦
          subst (λ j. Holds s₀ key rec (lock_key {E = E} s j now).0) p (rw (lock_held s now e h) h)
      | no ne ↦ lock_other-Holds s k now ne h
    ]

    run_call-Holds :
        (s : MemoryStore) (c : Call E)
        → Spares s₀ key rec c
        → Holds s₀ key rec s
        → Holds s₀ key rec (run_call s c)
    unfolding run_call lock save unlock delete_record
    run_call-Holds s (lock_call (some e) k now) n h = h
    run_call-Holds s (lock_call none k now) n h = lock_key-Holds s k now n h
    run_call-Holds s (save_call (some e) k response now) n h = h
    run_call-Holds s (save_call none k response now) n h = save_key-Holds s k response now n h
    run_call-Holds s (unlock_call (some e) k) n h = h
    run_call-Holds s (unlock_call none k) n h = unlock_key-Holds s k n h
    run_call-Holds s (delete_call (some e) k) n h = h
    run_call-Holds s (delete_call none k) n h = drop-Holds s k n h
    run_call-Holds s (evict_call now) n h = evict-Holds s now n h

    pub run_calls-Holds :
        (s : MemoryStore) (cs : List (Call E))
        → All (Spares s₀ key rec) cs
        → Holds s₀ key rec s
        → Holds s₀ key rec (run_calls s cs)
    unfolding run_calls
    run_calls-Holds s [] n h = h
    run_calls-Holds s (c ∷ cs) n h =
        run_calls-Holds (run_call s c) cs n.1 (run_call-Holds s c n.0 h)
