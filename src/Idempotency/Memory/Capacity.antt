-- ===== src/Idempotency/Memory/Capacity.antt =====
-- The number of records of a `MemoryStore`.
use go_libs.Common.{
  ℕ, suc, ◌≤◌, ◌<◌, ◌≡◌, ◌≢◌, ◌⊎◌, inl, inr, sym, ◌∙◌, subst, true, false, Option, none, some,
  String, List, [], ◌∷◌, arith, ltb, pos, ltb_ℤ, lookup, delete, delete_if, string_discrete, length,
  str_eq, is_some, Bool-cases, Option-cases, length-delete_old, length-delete_if-le,
  length-insert_new, length-insert_old, lookup-delete-none, delete_if-none, lookup-insert_ne,
  length-delete-le,
}
use text.Mathlib.TextEquality.{eq_iff}
use go_libs.Idempotency.Memory.{
  MemoryRecord, MemoryStore, expired, evict_expired, scan_oldest, evict_oldest, make_room, is_full,
  put,
}

scan_some : (b : String × ℕ) (m : List (String × MemoryRecord)) → scan_oldest (some b) m ≢ none
unfolding scan_oldest
scan_some b [] h = cc
scan_some (j, t) ((k, rec) ∷ m) h = elim (Bool-cases (ltb rec.updated_at t)) [
  | inl e ↦ scan_some (k, rec.updated_at) m (sym (rw e) ∙ h)
  | inr e ↦ scan_some (j, t) m (sym (rw e) ∙ h)
]

scan_mem :
    (best : Option (String × ℕ)) (m : List (String × MemoryRecord)) (k : String) (t : ℕ)
    → scan_oldest best m ≡ some (k, t)
    → (best ≡ some (k, t)) ⊎ (is_some (lookup string_discrete k m) ≡ true)
unfolding scan_oldest lookup
scan_mem best [] k t h = inl h
scan_mem none ((j, rec) ∷ m) k t h = ground (arith, scan_mem (some (j, rec.updated_at)) m k t)
scan_mem (some (i, u)) ((j, rec) ∷ m) k t h =
    ground (arith, scan_mem (some (j, rec.updated_at)) m k t, scan_mem (some (i, u)) m k t)

scan_first :
    (x : String × MemoryRecord) (m : List (String × MemoryRecord)) → scan_oldest none (x ∷ m) ≢ none
unfolding scan_oldest
scan_first (j, rec) m = scan_some (j, rec.updated_at) m

-- The oldest record is one of the map's.
oldest :
    (m : List (String × MemoryRecord))
    → 0 < length m
    → (k : String) × (t : ℕ) × (rec : MemoryRecord) × (scan_oldest none m ≡ some (k, t))
      × (lookup string_discrete k m ≡ some rec)
oldest [] p = absurd (omega arith)
oldest (x ∷ m) p = elim (Option-cases (scan_oldest none (x ∷ m))) [
  | inl e ↦ absurd (scan_first x m e)
  | inr ((k, t), e) ↦ elim (scan_mem none (x ∷ m) k t e) [
    | inl never ↦ cc
    | inr there ↦ elim (Option-cases (lookup string_discrete k (x ∷ m))) [
      | inl gone ↦ cc
      | inr (rec, held) ↦ (k, t, rec, e, held)
    ]
  ]
]

-- No record goes by the empty key.
abbrev pub Named : MemoryStore → Type 0
Named s = lookup string_discrete "" s.records ≡ none

key_not_empty :
    (s : MemoryStore) (k : String) (rec : MemoryRecord)
    → Named s
    → lookup string_discrete k s.records ≡ some rec
    → str_eq k "" ≡ false
key_not_empty s k rec n h = elim (Bool-cases (str_eq k "")) [
  | inl e ↦ absurd (
      cc (sym n ∙ subst (λ j. lookup string_discrete j s.records ≡ some rec) ((eq_iff k "").0 e) h))
  | inr e ↦ e
]

evict_oldest-lt :
    (s : MemoryStore)
    → Named s
    → 0 < length s.records
    → suc (length (evict_oldest s).records) ≤ length s.records
unfolding evict_oldest
evict_oldest-lt s n p =
    let (k, t, rec, found, held) = oldest s.records p in
    rw (found, evict_oldest, key_not_empty s k rec n held)
      (length-delete_old string_discrete k rec s.records held)

evict_oldest-Named : (s : MemoryStore) → Named s → Named (evict_oldest s)
unfolding evict_oldest
evict_oldest-Named s n = elim (Option-cases (scan_oldest none s.records)) [
  | inl e ↦ rw (e, evict_oldest) n
  | inr ((k, t), e) ↦ elim (Bool-cases (str_eq k "")) [
    | inl nameless ↦ rw (e, evict_oldest, nameless) n
    | inr named ↦ rw (e, evict_oldest, named) (lookup-delete-none string_discrete k "" s.records n)
  ]
]

-- A bounded store within its bound, with named records.
pub record Bounded (max : ℕ) (s : MemoryStore) : Type 0 where
  pub bound : s.max_entries ≡ pos (suc max)
  pub within : length s.records ≤ suc max
  pub named : Named s

-- There is room for one more record.
pub record Roomy (max : ℕ) (s : MemoryStore) : Type 0 where
  pub bound : s.max_entries ≡ pos (suc max)
  pub room : length s.records ≤ max
  pub named : Named s

pub evict_expired-Bounded :
    (max : ℕ) (s : MemoryStore) (now : ℕ) → Bounded max s → Bounded max (evict_expired s now).0
unfolding evict_expired
evict_expired-Bounded max s now b = record {
  bound = b.bound;
  within = omega (arith, length-delete_if-le (expired s now) s.records, b.within);
  named = delete_if-none string_discrete (expired s now) "" s.records b.named;
}

evict_oldest_settings : (s : MemoryStore) → (evict_oldest s).max_entries ≡ s.max_entries
unfolding evict_oldest
evict_oldest_settings s = ground arith

evict_oldest-Roomy :
    (max : ℕ) (s : MemoryStore) → Bounded max s → is_full s ≡ true → Roomy max (evict_oldest s)
evict_oldest-Roomy max s b full = record {
  bound = evict_oldest_settings s ∙ b.bound;
  room = omega (arith, evict_oldest-lt s b.named (ground arith), b.within);
  named = evict_oldest-Named s b.named;
}

not_full-Roomy : (max : ℕ) (s : MemoryStore) → Bounded max s → is_full s ≡ false → Roomy max s
not_full-Roomy max s b h = record { bound = b.bound; room = ground arith; named = b.named }

pub make_room-Roomy :
    (max : ℕ) (s : MemoryStore) (now : ℕ) → Bounded max s → Roomy max (make_room s now)
unfolding make_room
make_room-Roomy max s now b =
    let limited : ltb_ℤ (pos 0) s.max_entries ≡ true = ground arith in
    let e = (evict_expired s now).0 in
    let be = evict_expired-Bounded max s now b in
    elim (Bool-cases (is_full s)) [
      | inl full ↦ elim (Bool-cases (is_full e)) [
        | inl still ↦ rw (limited, full, still) (evict_oldest-Roomy max e be still)
        | inr freed ↦ rw (limited, full, freed) (not_full-Roomy max e be freed)
      ]
      | inr free ↦ rw (limited, free) (not_full-Roomy max s b free)
    ]

pub put_new-Bounded :
    (max : ℕ) (s : MemoryStore) (key : String) (rec : MemoryRecord)
    → Roomy max s
    → key ≢ ""
    → lookup string_discrete key s.records ≡ none
    → Bounded max (put s key rec)
put_new-Bounded max s key rec r ne miss = record {
  bound = r.bound;
  within = omega (arith, length-insert_new string_discrete key rec s.records miss, r.room);
  named = lookup-insert_ne string_discrete key "" rec s.records (λ e. ne (sym e)) ∙ r.named;
}

pub put_old-Bounded :
    (max : ℕ) (s : MemoryStore) (key : String) (rec old : MemoryRecord)
    → Bounded max s
    → key ≢ ""
    → lookup string_discrete key s.records ≡ some old
    → Bounded max (put s key rec)
put_old-Bounded max s key rec old b ne held = record {
  bound = b.bound;
  within = omega (arith, length-insert_old string_discrete key rec old s.records held, b.within);
  named = lookup-insert_ne string_discrete key "" rec s.records (λ e. ne (sym e)) ∙ b.named;
}

pub drop-Bounded :
    (max : ℕ) (s : MemoryStore) (key : String)
    → Bounded max s
    → Bounded max (record s { records = delete string_discrete key s.records })
drop-Bounded max s key b = record {
  bound = b.bound;
  within = omega (arith, length-delete-le string_discrete key s.records, b.within);
  named = lookup-delete-none string_discrete key "" s.records b.named;
}

pub make_room_miss :
    (s : MemoryStore) (key : String) (now : ℕ)
    → lookup string_discrete key s.records ≡ none
    → lookup string_discrete key (make_room s now).records ≡ none
unfolding make_room evict_expired evict_oldest
make_room_miss s key now miss =
    let swept = delete_if (expired s now) s.records in
    let gone = delete_if-none string_discrete (expired s now) key s.records miss in
    grind (arith, gone, lookup-delete-none)
