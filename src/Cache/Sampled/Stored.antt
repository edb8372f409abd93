-- ===== src/Cache/Sampled/Stored.antt =====
-- What `Set` stores under `EvictionSampledLRU`, `Get` finds: the eviction spares the new key.
use go_libs.Common.{
  ℕ, zero, suc, ◌≡◌, refl, sym, ap, ◌∙◌, subst, true, Option, none, some, inl, inr, String, ◌+◌,
  lookup, delete, string_discrete, string_ne, Bool-cases, Option-cases, lookup-insert_self,
  lookup-delete_ne, ℤ, pos, ◌-ℤ◌, leb_ℤ, ltb_ℤ, length,
}
use go_libs.Cache.Linked.{expiry}
use go_libs.Cache.Sampled.{Item, SampledCache, evict_key, swap_item, get, is_live}
use go_libs.Cache.Sampled.Sampling.{
  RangeOrder, find_sampled_candidate, evict_loop, evict_if_needed, store_item, set,
}
use go_libs.Cache.Sampled.Candidate.{Picked}
use go_libs.Cache.Sampled.Eviction.{IsVictim, candidate-IsVictim, candidate_same}

module _ {T : Type 0} where
  evict_key-items :
      (c d : SampledCache T) (k : String)
      → evict_key c k ≡ some d
      → d.items ≡ delete string_discrete k c.items
  unfolding evict_key
  evict_key-items c d k h = elim (Option-cases (lookup string_discrete k c.items)) [
    | inl e ↦ cc (rw (evict_key, e) at h)
    | inr (item, e) ↦
        let g : record c {
          items = delete string_discrete k c.items;
          size = c.size -ℤ pos 1;
          evictions = c.evictions + 1;
        }
            ≡ d =
          cc (rw (evict_key, e) at h) in
        subst (λ x. x.items ≡ delete string_discrete k c.items) g refl
  ]

  module _ (range : RangeOrder T) (key : String) (item : Item T) where
    abbrev Has : SampledCache T → Type 0
    Has c = lookup string_discrete key c.items ≡ some item

    evict_loop-Has :
        (now : ℕ → ℕ) (fuel : ℕ) (c : SampledCache T)
        → Has c
        → Has (evict_loop range now fuel c key)
    unfolding evict_loop
    evict_loop-Has now zero c h = h
    evict_loop-Has now (suc fuel) c h = elim (Bool-cases (leb_ℤ c.capacity c.size)) [
      | inr room ↦ rw (room, evict_loop) h
      | inl full ↦
          let (items, size, capacity) = candidate_same range c key (now fuel) in
          let d : SampledCache T = (find_sampled_candidate range c key (now fuel)).0 in
          let there : Has d = ap (lookup string_discrete key) items ∙ h in
          elim (Option-cases (find_sampled_candidate range c key (now fuel)).1) [
            | inl e ↦ rw (full, e, evict_loop) there
            | inr (k, e) ↦
                let victim : IsVictim c key k =
                  subst (Picked (IsVictim c key)) e (candidate-IsVictim range c key (now fuel)) in
                elim (Option-cases (evict_key d k)) [
                  | inl f ↦ rw (full, e, evict_loop) (rw f there)
                  | inr (x, f) ↦
                      let spared : Has x =
                        ap (lookup string_discrete key) (evict_key-items d x k f)
                        ∙ lookup-delete_ne string_discrete k key d.items
                            (λ q. string_ne k key victim.0 (sym q))
                        ∙ there in
                      rw (full, e, evict_loop) (rw f (evict_loop-Has now fuel x spared))
                ]
          ]
    ]

    evict_if_needed-Has :
        (now : ℕ → ℕ) (c : SampledCache T) → Has c → Has (evict_if_needed range now c key)
    unfolding evict_if_needed
    evict_if_needed-Has now c h = elim (Bool-cases (leb_ℤ c.capacity (pos 0))) [
      | inl e ↦ rw (evict_if_needed, e) h
      | inr e ↦ rw (evict_if_needed, e) (evict_loop-Has now (suc (length c.items)) c h)
    ]

    swapped-Has : (c : SampledCache T) → Has (swap_item c key item)
    unfolding swap_item
    swapped-Has c = lookup-insert_self string_discrete key item c.items

    store_item-Has : (now : ℕ → ℕ) (c : SampledCache T) → Has (store_item range now c key item)
    unfolding store_item
    store_item-Has now c = elim (Bool-cases (ltb_ℤ (pos 0) c.capacity)) [
      | inr e ↦ rw (store_item, e) (swapped-Has c)
      | inl e ↦
          let d : SampledCache T =
            swap_item
              (elim (lookup string_discrete key c.items) [
                | none ↦ evict_if_needed range now c key
                | some old ↦ c
              ])
              key item in
          elim (Bool-cases (ltb_ℤ d.capacity d.size)) [
            | inl over ↦ rw (store_item, e) (rw over (evict_if_needed-Has now d (swapped-Has _)))
            | inr fits ↦ rw (store_item, e) (rw fits (swapped-Has _))
          ]
    ]

  -- In every state of the cache, with or without a capacity and in whatever order the map is visited: what
  -- `Set` stores under a key is what `Get` of the key answers while the entry lives.
  pub sampled_get-set :
      (range : RangeOrder T) (c : SampledCache T) (key : String) (value : T) (ttl : Option ℤ)
      (stored now later : ℕ)
      → (clock : ℕ → ℕ)
      → is_live (record { value = value; expiration = expiry ttl stored; created_at = stored }) now
        ≡ true
      → (get (set range clock c key value ttl stored) key now later).1 ≡ some value
  unfolding get set
  sampled_get-set range c key value ttl stored now later clock live =
      let item : Item T = record {
        value = value;
        expiration = expiry ttl stored;
        created_at = stored;
      } in
      rw (store_item-Has range key item clock c, get) (rw live refl)
