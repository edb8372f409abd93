-- ===== src/Cache/Sampled/Sampling.antt =====
-- cache/cache.go: the choice of a victim and the eviction under `EvictionSampledLRU`, and the calls that store.
use go_libs.Common.{
  ℕ, zero, suc, ◌↔◌, ◌+◌, ◌-◌, ◌%◌, ◌^◌, ◌==◌, Bool, true, false, ◌&&◌, Option, none, some, ◌⊎◌,
  inl, inr, String, List, [], ◌∷◌, if◌then◌else◌, ltb, leb, str_eq, ℤ, pos, to_ℕ, leb_ℤ, ltb_ℤ,
  div_ℤ, lookup, string_discrete, length, All,
}
use go_libs.Cache.Linked.{expiry, is_expired}
use go_libs.Cache.Fetch.{Flight, unless_ended}
use go_libs.Cache.Sampled.{Item, SampledCache, evict_key, swap_item, is_live}

-- 2^63 - 1, where `oldestTime` starts.
abbrev pub no_time : ℕ
no_time = 9_223_372_036_854_775_807

abbrev pub sample_size : ℕ
sample_size = 16

-- `oldestKey` and `oldestTime`.
pub record Oldest : Type 0 where
  pub key : Option String
  pub time : ℕ

abbrev pub no_oldest : Oldest
no_oldest = record { key = none; time = no_time }

-- Whether the loop of `findSampledEvictionCandidate` samples the entry at `idx`.
abbrev pub is_sampled : (stride offset idx : ℕ) → Bool
is_sampled stride offset idx = leb offset idx && (idx - offset) % stride == 0

module _ {T : Type 0} where
  unfoldable pub older : Oldest → String → Item T → Oldest
  older best k item =
      if ltb item.created_at best.time
      then record { key = some k; time = item.created_at }
      else best

  module _ (new_key : String) (now : ℕ) where
    -- The loop of `findFallbackEvictionCandidate`. Its result is `expiredKey`, or else `oldestKey`.
    unfoldable pub fallback_loop : List (String × Item T) → ℕ → Oldest → Option String
    fallback_loop [] sampled best = best.key
    fallback_loop ((k, item) ∷ m) sampled best = elim (str_eq k new_key) [
      | true ↦ fallback_loop m sampled best
      | false ↦ elim (is_expired item.expiration now) [
        | true ↦ some k
        | false ↦ elim (ltb (suc sampled) sample_size) [
          | true ↦ fallback_loop m (suc sampled) (older best k item)
          | false ↦ (older best k item).key
        ]
      ]
    ]

    unfoldable pub sampled_loop :
        (stride offset : ℕ) → List (String × Item T) → (idx sampled : ℕ) → Oldest → Option String
    sampled_loop stride offset [] idx sampled best = best.key
    sampled_loop stride offset ((k, item) ∷ m) idx sampled best = elim (str_eq k new_key) [
      | true ↦ sampled_loop stride offset m idx sampled best
      | false ↦ elim (is_sampled stride offset idx) [
        | false ↦ sampled_loop stride offset m (suc idx) sampled best
        | true ↦ elim (is_expired item.expiration now) [
          | true ↦ some k
          | false ↦ elim (leb sample_size (suc sampled)) [
            | true ↦ (older best k item).key
            | false ↦ sampled_loop stride offset m (suc idx) (suc sampled) (older best k item)
          ]
        ]
      ]
    ]

  unfoldable pub stride_of : SampledCache T → ℕ
  stride_of c = let s = div_ℤ c.size 16 in if ltb_ℤ (pos 1) s then to_ℕ s else 1

  -- `evictOffset.Add(1)`.
  abbrev pub next_offset : SampledCache T → ℕ
  next_offset c = suc c.evict_offset % 2 ^ 64

-- The order in which one `Range` visits the map. sync.Map promises none: what holds of every entry of the map
-- holds of every entry visited, and conversely.
pub record RangeOrder (T : Type 0) : Type 1 where
  pub visits : List (String × Item T) → List (String × Item T)
  pub visited :
      (P : String × Item T → Type 0) (m : List (String × Item T)) → All P m ↔ All P (visits m)

module _ {T : Type 0} (range : RangeOrder T) where
  unfoldable pub find_fallback_candidate : SampledCache T → String → ℕ → Option String
  find_fallback_candidate c new_key now =
      fallback_loop new_key now (range.visits c.items) 0 no_oldest

  unfoldable pub find_sampled_candidate :
      SampledCache T → String → ℕ → SampledCache T × Option String
  find_sampled_candidate c new_key now =
      let stride = stride_of c in
      let offset = next_offset c % stride in
      let c' : SampledCache T = record c { evict_offset = next_offset c } in
      elim (sampled_loop new_key now stride offset (range.visits c.items) 0 0 no_oldest) [
        | some k ↦ (c', some k)
        | none ↦ (c', find_fallback_candidate c' new_key now)
      ]

  -- The loop of `evictIfNeeded` on fuel; `now i` is the clock in the turn that has `i` turns left.
  unfoldable pub evict_loop : (ℕ → ℕ) → ℕ → SampledCache T → String → SampledCache T
  evict_loop now zero c new_key = c
  evict_loop now (suc fuel) c new_key = elim (leb_ℤ c.capacity c.size) [
    | false ↦ c
    | true ↦
        let (c', target) = find_sampled_candidate c new_key (now fuel) in
        elim target [
          | none ↦ c'
          | some k ↦ elim (evict_key c' k) [
            | none ↦ c'
            | some c'' ↦ evict_loop now fuel c'' new_key
          ]
        ]
  ]

  unfoldable pub evict_if_needed : (ℕ → ℕ) → SampledCache T → String → SampledCache T
  evict_if_needed now c new_key =
      if leb_ℤ c.capacity (pos 0) then c else evict_loop now (suc (length c.items)) c new_key

  -- The end of `Set`, which `GetOrFetch` has too.
  unfoldable pub store_item : (ℕ → ℕ) → SampledCache T → String → Item T → SampledCache T
  store_item now c key item =
      if ltb_ℤ (pos 0) c.capacity
      then (let c₁ : SampledCache T = elim (lookup string_discrete key c.items) [
        | none ↦ evict_if_needed now c key
        | some old ↦ c
      ] in
          let c₂ = swap_item c₁ key item in
          if ltb_ℤ c₂.capacity c₂.size then evict_if_needed now c₂ key else c₂)
      else swap_item c key item

  unfoldable pub set : (ℕ → ℕ) → SampledCache T → String → T → Option ℤ → ℕ → SampledCache T
  set now c key value ttl stored =
      store_item now c key
        (record { value = value; expiration = expiry ttl stored; created_at = stored })

  -- From the miss of `getOrFetchSampledLRU` on.
  unfoldable pub fetch_missing :
      {E : Type 0}
      → (ℕ → ℕ)
      → SampledCache T
      → String
      → ℤ
      → Flight T E
      → SampledCache T × (T ⊎ E) × Bool
  fetch_missing now c key ttl w = elim w.returned [
    | inr e ↦ (c, unless_ended w.ended (inr e), true)
    | inl v ↦ (set now c key v (some ttl) w.stored, unless_ended w.ended (inl v), true)
  ]

  -- `GetOrFetch` of a caller that shares its flight with no other.
  unfoldable pub get_or_fetch :
      {E : Type 0}
      → (ℕ → ℕ)
      → SampledCache T
      → String
      → ℤ
      → Flight T E
      → SampledCache T × (T ⊎ E) × Bool
  get_or_fetch now c key ttl w = elim w.ctx_err [
    | some e ↦ (c, inr e, false)
    | none ↦ elim (lookup string_discrete key c.items) [
      | none ↦ fetch_missing now (record c { misses = c.misses + 1 }) key ttl w
      | some item ↦
          if is_live item w.looked_up
          then (record c { hits = c.hits + 1 }, inl item.value, false)
          else fetch_missing now (record c { misses = c.misses + 1 }) key ttl w
    ]
  ]
