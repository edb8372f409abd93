-- ===== src/Cache/Sampled.antt =====
-- cache/cache.go: `TypedCache` with the policy `EvictionSampledLRU`. A call runs as a whole: that calls on keys of
-- different stripes interleave is not modelled. All values are of type `Item[T]`, so the type assertions hold.
pub mod Sampling
pub mod Candidate
pub mod Eviction
pub mod Within
pub mod Bounds
pub mod Stored
use Prim.Native.Nat.{bit_xor}
use go_libs.Common.{
  ℕ, zero, suc, ◌≡◌, ◌+◌, ◌-◌, ◌*◌, ◌%◌, ◌^◌, ◌==◌, Bool, true, false, ◌&&◌, ◌||◌, not, Option,
  none, some, ◌⊎◌, inl, inr, String, List, [], ◌∷◌, if◌then◌else◌, ltb, leb, str_eq, ℤ, pos, to_ℕ,
  ◌+ℤ◌, ◌-ℤ◌, leb_ℤ, ltb_ℤ, div_ℤ, lookup, insert, delete, string_discrete, length,
}
use go_libs.Cache.Linked.{expiry, is_expired}
use go_libs.Cache.Fetch.{Flight, unless_ended}

-- `fnv32` of the bytes of a key.
unfoldable pub fnv_step : ℕ → ℕ → ℕ
fnv_step hash byte = bit_xor hash byte * 16_777_619 % 2 ^ 32

unfoldable pub fnv_loop : ℕ → List ℕ → ℕ
fnv_loop hash [] = hash
fnv_loop hash (b ∷ bs) = fnv_loop (fnv_step hash b) bs

unfoldable pub fnv32 : List ℕ → ℕ
fnv32 bytes = fnv_loop 2_166_136_261 bytes

-- The number of the stripe of a key.
unfoldable pub get_stripe : List ℕ → ℕ
get_stripe bytes = fnv32 bytes % 16

pub record Item (T : Type 0) : Type 0 where
  pub value : T
  pub expiration : ℕ
  pub created_at : ℕ

-- `items` is the field `data`, a sync.Map.
pub record SampledCache (T : Type 0) : Type 0 where
  pub items : List (String × Item T)
  pub size : ℤ
  pub evict_offset : ℕ
  pub capacity : ℤ
  pub hits : ℕ
  pub misses : ℕ
  pub evictions : ℕ

module _ {T : Type 0} where
  unfoldable pub new_sampled : ℤ → SampledCache T
  new_sampled capacity = record {
    items = [];
    size = pos 0;
    evict_offset = 0;
    capacity = capacity;
    hits = 0;
    misses = 0;
    evictions = 0;
  }

  -- `LoadAndDelete` of a key, with the counters if it was there.
  unfoldable pub evict_key : SampledCache T → String → Option (SampledCache T)
  evict_key c k = elim (lookup string_discrete k c.items) [
    | none ↦ none
    | some item ↦ some (record c {
      items = delete string_discrete k c.items;
      size = c.size -ℤ pos 1;
      evictions = c.evictions + 1;
    })
  ]

  -- `Swap`, with `size.Add(1)` if the key was not there.
  unfoldable pub swap_item : SampledCache T → String → Item T → SampledCache T
  swap_item c key item = record c {
    items = insert string_discrete key item c.items;
    size = elim (lookup string_discrete key c.items) [ none ↦ c.size +ℤ pos 1 | some old ↦ c.size ];
  }

  -- `item.Expiration == 0 || item.Expiration > now`.
  abbrev pub is_live : Item T → ℕ → Bool
  is_live item now = item.expiration == 0 || ltb now item.expiration

  -- The clock is read again under the lock.
  unfoldable pub get : SampledCache T → String → (now later : ℕ) → SampledCache T × Option T
  get c key now later = elim (lookup string_discrete key c.items) [
    | none ↦ (record c { misses = c.misses + 1 }, none)
    | some item ↦
        if is_live item now
        then (record c { hits = c.hits + 1 }, some item.value)
        else (let d : SampledCache T =
              if is_expired item.expiration later
              then elim (evict_key c key) [ none ↦ c | some c' ↦ c' ]
              else c in
            (record d { misses = d.misses + 1 }, none))
  ]

  unfoldable pub delete_item : SampledCache T → String → SampledCache T
  delete_item c key = elim (lookup string_discrete key c.items) [
    | none ↦ c
    | some item ↦ record c { items = delete string_discrete key c.items; size = c.size -ℤ pos 1 }
  ]

  unfoldable pub len_of : SampledCache T → ℕ
  len_of c = if ltb_ℤ c.size (pos 0) then 0 else to_ℕ c.size

  -- One visit of the sweep of `startEviction`.
  unfoldable pub sweep_key : ℕ → SampledCache T → String → SampledCache T
  sweep_key now c key = elim (lookup string_discrete key c.items) [
    | none ↦ c
    | some item ↦
        if is_expired item.expiration now
        then elim (evict_key c key) [ none ↦ c | some c' ↦ c' ]
        else c
  ]

  unfoldable pub sweep_loop : ℕ → List (String × Item T) → SampledCache T → SampledCache T
  sweep_loop now [] c = c
  sweep_loop now ((k, item) ∷ m) c =
      sweep_loop now m (if is_expired item.expiration now then sweep_key now c k else c)
