-- ===== src/Idempotency/Memory/Limit.antt =====
-- The bound on the number of records, under every sequence of calls.
use go_libs.Common.{
  ℕ, suc, ◌≡◌, ◌≢◌, inl, inr, true, none, some, String, List, [], ◌∷◌, arith, pos, ltb_ℤ, ◌≤ℤ◌,
  ◌<ℤ◌, lookup, delete, string_discrete, length, Bool-cases, Option-cases, All, length-delete_old,
  length-insert_new, lookup-delete_self,
}
use go_libs.Idempotency.{Response}
use go_libs.Idempotency.Memory.{
  MemoryRecord, MemoryStore, evict_expired, scan_oldest, evict_oldest, make_room, is_full, started,
  relock, lock_key, lock, save_key, save, unlock_key, unlock, delete_record, lock_expired,
  response_expired,
}
use go_libs.Idempotency.Memory.Calls.{
  Call, lock_call, save_call, unlock_call, delete_call, evict_call, run_call, run_calls,
}
use go_libs.Idempotency.Memory.Capacity.{
  Bounded, Roomy, make_room-Roomy, put_new-Bounded, put_old-Bounded, drop-Bounded,
  evict_expired-Bounded, make_room_miss,
}

-- The keys of a call are not empty.
abbrev pub NamedCall : {E : Type 0} → Call E → Type 0
NamedCall (lock_call ctx key now) = key ≢ ""
NamedCall (save_call ctx key response now) = key ≢ ""
NamedCall (unlock_call ctx key) = Unit {0}
NamedCall (delete_call ctx key) = Unit {0}
NamedCall (evict_call now) = Unit {0}

dropped-Roomy :
    (max : ℕ) (s : MemoryStore) (key : String) (rec : MemoryRecord)
    → Bounded max s
    → lookup string_discrete key s.records ≡ some rec
    → Roomy max (record s { records = delete string_discrete key s.records })
dropped-Roomy max s key rec b held = record {
  bound = b.bound;
  room = omega (arith, length-delete_old string_discrete key rec s.records held, b.within);
  named = (drop-Bounded max s key b).named;
}

save_key-Bounded :
    (max : ℕ) (s : MemoryStore) (key : String) (response : Response) (now : ℕ)
    → key ≢ ""
    → Bounded max s
    → Bounded max (save_key s key response now)
unfolding save_key
save_key-Bounded max s key response now ne b =
    elim (Option-cases (lookup string_discrete key s.records)) [
      | inl miss ↦
          rw (miss, save_key)
            (put_new-Bounded max _ key _ (make_room-Roomy max s now b) ne
              (make_room_miss s key now miss))
      | inr (rec, held) ↦ rw (held, save_key) (put_old-Bounded max s key _ rec b ne held)
    ]

unlock_key-Bounded :
    (max : ℕ) (s : MemoryStore) (key : String) → Bounded max s → Bounded max (unlock_key s key)
unfolding unlock_key
unlock_key-Bounded max s key b = ground (arith, b, drop-Bounded max s key b)

module _ (E : Type 0) (max : ℕ) where
  relock-Bounded :
      (s : MemoryStore) (key : String) (now : ℕ) (rec : MemoryRecord)
      → key ≢ ""
      → lookup string_discrete key s.records ≡ some rec
      → Bounded max s
      → Bounded max (relock {E = E} s key now rec).0
  unfolding relock
  relock-Bounded s key now rec ne held b = elim (Bool-cases (lock_expired s now rec)) [
    | inl late ↦ rw late (put_old-Bounded max s key _ rec b ne held)
    | inr live ↦ elim (Bool-cases (response_expired s now rec)) [
      | inl stale ↦
          rw (live, stale)
            (put_new-Bounded max _ key _ (dropped-Roomy max s key rec b held) ne
              (lookup-delete_self string_discrete key s.records))
      | inr kept ↦ rw (live, kept) b
    ]
  ]

  lock_key-Bounded :
      (s : MemoryStore) (key : String) (now : ℕ)
      → key ≢ ""
      → Bounded max s
      → Bounded max (lock_key {E = E} s key now).0
  unfolding lock_key
  lock_key-Bounded s key now ne b = elim (Option-cases (lookup string_discrete key s.records)) [
    | inl miss ↦
        rw (miss, lock_key)
          (put_new-Bounded max _ key _ (make_room-Roomy max s now b) ne
            (make_room_miss s key now miss))
    | inr (rec, held) ↦ rw (held, lock_key) (relock-Bounded s key now rec ne held b)
  ]

  run_call-Bounded :
      (s : MemoryStore) (c : Call E) → NamedCall c → Bounded max s → Bounded max (run_call s c)
  unfolding run_call lock save unlock delete_record
  run_call-Bounded s (lock_call (some e) key now) n b = b
  run_call-Bounded s (lock_call none key now) n b = lock_key-Bounded s key now n b
  run_call-Bounded s (save_call (some e) key response now) n b = b
  run_call-Bounded s (save_call none key response now) n b =
      save_key-Bounded max s key response now n b
  run_call-Bounded s (unlock_call (some e) key) n b = b
  run_call-Bounded s (unlock_call none key) n b = unlock_key-Bounded max s key b
  run_call-Bounded s (delete_call (some e) key) n b = b
  run_call-Bounded s (delete_call none key) n b = drop-Bounded max s key b
  run_call-Bounded s (evict_call now) n b = evict_expired-Bounded max s now b

  -- A store with a positive bound on its entries never holds more, whatever calls of its methods run
  -- one after another, if it starts within the bound and no key is the empty text.
  pub run_calls-Bounded :
      (s : MemoryStore) (cs : List (Call E))
      → All NamedCall cs
      → Bounded max s
      → Bounded max (run_calls s cs)
  unfolding run_calls
  run_calls-Bounded s [] n b = b
  run_calls-Bounded s (c ∷ cs) n b =
      run_calls-Bounded (run_call s c) cs n.1 (run_call-Bounded s c n.0 b)

nothing_evicted :
    (s : MemoryStore) (t : ℕ) → scan_oldest none s.records ≡ some ("", t) → evict_oldest s ≡ s
unfolding evict_oldest
nothing_evicted s t oldest = rw (oldest, evict_oldest)

room_unmade :
    (s : MemoryStore) (t now : ℕ)
    → pos 0 <ℤ s.max_entries
    → s.max_entries ≤ℤ pos (length s.records)
    → (evict_expired s now).0 ≡ s
    → scan_oldest none s.records ≡ some ("", t)
    → make_room s now ≡ s
unfolding make_room
room_unmade s t now p full kept oldest =
    let limited : ltb_ℤ (pos 0) s.max_entries ≡ true = ground arith in
    let over : is_full s ≡ true = ground arith in
    rw (limited, over) (rw kept (rw over (nothing_evicted s t oldest)))

-- The bound fails for the empty key. If a full store has nothing to expire and its least recently
-- updated record goes by the empty key, then `Lock` on a new key evicts nothing and the store
-- exceeds its bound.
pub empty_key_overflows :
    (E : Type 0) (s : MemoryStore) (key : String) (t now : ℕ)
    → pos 0 <ℤ s.max_entries
    → s.max_entries ≤ℤ pos (length s.records)
    → (evict_expired s now).0 ≡ s
    → scan_oldest none s.records ≡ some ("", t)
    → lookup string_discrete key s.records ≡ none
    → length (lock {E = E} s none key now).0.records ≡ suc (length s.records)
unfolding lock lock_key
empty_key_overflows E s key t now p full kept oldest miss =
    rw (miss, lock_key, room_unmade s t now p full kept oldest)
      (length-insert_new string_discrete key (started now) s.records miss)
