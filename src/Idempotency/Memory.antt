-- ===== src/Idempotency/Memory.antt =====
-- idempotency/memory.go: `MemoryStore`. Every method runs under `s.mu`, so it is one function of
-- the store, of `ctx.Err()` and of the clock reading. Responses are values here: the copies that
-- `deepCopyResponse` makes against aliasing are the values themselves.
pub mod Calls
pub mod Capacity
pub mod Limit
pub mod Locking
pub mod Replay
use go_libs.Common.{
  ℕ, suc, ◌+◌, Bool, true, false, ◌&&◌, ◌||◌, Option, none, some, String, List, [], ◌∷◌,
  if◌then◌else◌, ltb, ℤ, pos, leb_ℤ, ltb_ℤ, sub_time, lookup, insert, delete, delete_if,
  string_discrete, length, str_eq,
}
use go_libs.Idempotency.{Response, Status, in_progress, completed, Record, LockResult}

pub record MemoryRecord : Type 0 where
  pub status : Status
  pub response : Option Response
  pub updated_at : ℕ

pub record MemoryStore : Type 0 where
  pub records : List (String × MemoryRecord)
  pub lock_ttl : ℤ
  pub response_ttl : ℤ
  pub max_entries : ℤ

unfoldable pub with_lock_ttl : ℤ → MemoryStore → MemoryStore
with_lock_ttl ttl s = record s { lock_ttl = ttl }

unfoldable pub with_response_ttl : ℤ → MemoryStore → MemoryStore
with_response_ttl ttl s = record s { response_ttl = ttl }

unfoldable pub with_max_entries : ℤ → MemoryStore → MemoryStore
with_max_entries n s = record s { max_entries = n }

-- `NewMemoryStore`: the options run in order on an empty store.
apply_options : List (MemoryStore → MemoryStore) → MemoryStore → MemoryStore
apply_options [] s = s
apply_options (opt ∷ opts) s = apply_options opts (opt s)

unfoldable pub new_memory_store : List (MemoryStore → MemoryStore) → MemoryStore
unfolding apply_options
new_memory_store opts =
    apply_options opts
      (record { records = []; lock_ttl = pos 0; response_ttl = pos 0; max_entries = pos 0 })

abbrev pub is_in_progress : Status → Bool
is_in_progress in_progress = true
is_in_progress completed = false

abbrev pub is_completed : Status → Bool
is_completed in_progress = false
is_completed completed = true

-- `ttl > 0 && now.Sub(rec.UpdatedAt) > ttl`.
abbrev pub timed_out : ℤ → MemoryRecord → ℕ → Bool
timed_out ttl rec now = ltb_ℤ (pos 0) ttl && ltb_ℤ ttl (sub_time now rec.updated_at)

unfoldable pub lock_expired : MemoryStore → ℕ → MemoryRecord → Bool
lock_expired s now rec = is_in_progress rec.status && timed_out s.lock_ttl rec now

unfoldable pub response_expired : MemoryStore → ℕ → MemoryRecord → Bool
response_expired s now rec = is_completed rec.status && timed_out s.response_ttl rec now

abbrev pub expired : MemoryStore → ℕ → MemoryRecord → Bool
expired s now rec = response_expired s now rec || lock_expired s now rec

-- `evicted` of the loop in `evictExpired`.
unfoldable pub count_if : (MemoryRecord → Bool) → List (String × MemoryRecord) → ℕ
count_if dead [] = 0
count_if dead ((k, rec) ∷ m) = let rest = count_if dead m in if dead rec then suc rest else rest

unfoldable pub evict_expired : MemoryStore → ℕ → MemoryStore × ℕ
evict_expired s now =
    (record s { records = delete_if (expired s now) s.records }, count_if (expired s now) s.records)

-- The loop of `evictOldest`: `none` stands for `first`.
unfoldable pub scan_oldest :
    Option (String × ℕ) → List (String × MemoryRecord) → Option (String × ℕ)
scan_oldest best [] = best
scan_oldest none ((k, rec) ∷ m) = scan_oldest (some (k, rec.updated_at)) m
scan_oldest (some (j, t)) ((k, rec) ∷ m) =
    scan_oldest (if ltb rec.updated_at t then some (k, rec.updated_at) else some (j, t)) m

unfoldable pub evict_oldest : MemoryStore → MemoryStore
evict_oldest s = elim (scan_oldest none s.records) [
  | none ↦ s
  | some (k, t) ↦
      if str_eq k "" then s else record s { records = delete string_discrete k s.records }
]

abbrev pub is_full : MemoryStore → Bool
is_full s = leb_ℤ s.max_entries (pos (length s.records))

-- The eviction before an insertion, in `Lock` and in `Save`.
unfoldable pub make_room : MemoryStore → ℕ → MemoryStore
make_room s now =
    if ltb_ℤ (pos 0) s.max_entries && is_full s
    then (let s' = (evict_expired s now).0 in if is_full s' then evict_oldest s' else s')
    else s

abbrev pub put : MemoryStore → String → MemoryRecord → MemoryStore
put s key rec = record s { records = insert string_discrete key rec s.records }

abbrev pub started : ℕ → MemoryRecord
started now = record { status = in_progress; response = none; updated_at = now }

abbrev pub saved : Response → ℕ → MemoryRecord
saved response now = record { status = completed; response = some response; updated_at = now }

unfoldable pub save_key : MemoryStore → String → Response → ℕ → MemoryStore
save_key s key response now = elim (lookup string_discrete key s.records) [
  | some rec ↦ put s key (saved response now)
  | none ↦ put (make_room s now) key (saved response now)
]

unfoldable pub unlock_key : MemoryStore → String → MemoryStore
unlock_key s key = elim (lookup string_discrete key s.records) [
  | some rec ↦
      if is_in_progress rec.status
      then record s { records = delete string_discrete key s.records }
      else s
  | none ↦ s
]

module _ {E : Type 0} where
  -- `return false, nil, nil`.
  abbrev pub acquired : LockResult E
  acquired = record { exists = false; found = none; err = none }

  abbrev pub answers : MemoryRecord → LockResult E
  answers rec = record {
    exists = true;
    found = some (record { status = rec.status; response = rec.response });
    err = none;
  }

  -- `Lock` on a key that is there.
  unfoldable pub relock : MemoryStore → String → ℕ → MemoryRecord → MemoryStore × LockResult E
  relock s key now rec =
      if lock_expired s now rec
      then (put s key (record rec { updated_at = now }), acquired)
      else if response_expired s now rec
      then (
        put (record s { records = delete string_discrete key s.records }) key (started now),
        acquired,
      )
      else (s, answers rec)

  unfoldable pub lock_key : MemoryStore → String → ℕ → MemoryStore × LockResult E
  lock_key s key now = elim (lookup string_discrete key s.records) [
    | some rec ↦ relock s key now rec
    | none ↦ (put (make_room s now) key (started now), acquired)
  ]

  unfoldable pub lock : MemoryStore → Option E → String → ℕ → MemoryStore × LockResult E
  lock s (some e) key now = (s, record { exists = false; found = none; err = some e })
  lock s none key now = lock_key s key now

  unfoldable pub save : MemoryStore → Option E → String → Response → ℕ → MemoryStore × Option E
  save s (some e) key response now = (s, some e)
  save s none key response now = (save_key s key response now, none)

  unfoldable pub unlock : MemoryStore → Option E → String → MemoryStore × Option E
  unlock s (some e) key = (s, some e)
  unlock s none key = (unlock_key s key, none)

  unfoldable pub delete_record : MemoryStore → Option E → String → MemoryStore × Option E
  delete_record s (some e) key = (s, some e)
  delete_record s none key = (record s { records = delete string_discrete key s.records }, none)

unfoldable pub len : MemoryStore → ℕ
len s = length s.records
