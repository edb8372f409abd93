-- ===== src/Cache/Sampled/Within.antt =====
-- What each call keeps of a cache under `EvictionSampledLRU` with a positive capacity.
use go_libs.Common.{
  ℕ, suc, ◌≡◌, ◌≤◌, ◌<◌, sym, ap, ◌∙◌, true, false, none, some, inl, inr, String, List, [], ◌∷◌,
  lookup, insert, string_discrete, All, arith, Bool-cases, Option-cases, length, insert-Distinct,
  delete-Distinct, length-insert_new, length-insert_old, length-delete_one, pos, leb_ℤ, ltb_ℤ, ◌+ℤ◌,
  ◌-ℤ◌, if◌then◌else◌, if_pos, if_neg,
}
use go_libs.Cache.Linked.{is_expired}
use go_libs.Cache.Sampled.{
  Item, SampledCache, evict_key, swap_item, get, delete_item, sweep_key, sweep_loop, is_live,
}
use go_libs.Cache.Sampled.Sampling.{no_time, RangeOrder, evict_if_needed, store_item}
use go_libs.Cache.Sampled.Candidate.{Dated}
use go_libs.Cache.Sampled.Eviction.{Sized, HasRoom, All-delete, evict_key-Sized, evict_loop-HasRoom}

module _ {T : Type 0} where
  -- A cache that holds at most `suc n` entries.
  pub record Within (n : ℕ) (c : SampledCache T) : Type 0 where
    pub sized : Sized c
    pub room : length c.items ≤ suc n
    pub capacity : c.capacity ≡ pos (suc n)

  All-insert :
      (P : String × Item T → Type 0) (k : String) (item : Item T) (m : List (String × Item T))
      → P (k, item)
      → All P m
      → All P (insert string_discrete k item m)
  unfolding insert
  All-insert P k item [] p a = (p, tt)
  All-insert P k item ((j, w) ∷ m) p (q, a) = elim (string_discrete j k) [
    | yes e ↦ rw (if_pos (string_discrete j k) e _ _) (p, a)
    | no e ↦ rw (if_neg (string_discrete j k) e _ _) (q, All-insert P k item m p a)
  ]

  swapped-Sized :
      (c : SampledCache T) (key : String) (item : Item T)
      → item.created_at < no_time
      → Sized c
      → Sized (swap_item c key item)
  unfolding swap_item ◌+ℤ◌
  swapped-Sized c key item young s = elim (Option-cases (lookup string_discrete key c.items)) [
    | inl e ↦
        rw (swap_item, e)
          (record {
            size =
                ap (λ z. z +ℤ pos 1) s.size
                ∙ ground (arith, length-insert_new string_discrete key item c.items e);
            distinct = insert-Distinct string_discrete key item c.items s.distinct;
            dated = All-insert Dated key item c.items young s.dated;
          })
    | inr (old, e) ↦
        rw (swap_item, e)
          (record {
            size = s.size ∙ ap pos (sym (length-insert_old string_discrete key item old c.items e));
            distinct = insert-Distinct string_discrete key item c.items s.distinct;
            dated = All-insert Dated key item c.items young s.dated;
          })
  ]

  evicted-Within :
      (n : ℕ) (c d : SampledCache T) (k : String) → Within n c → evict_key c k ≡ some d → Within n d
  evicted-Within n c d k w e =
      let (s, shorter, cap, items) = evict_key-Sized c d k w.sized e in
      record { sized = s; room = omega (arith, shorter, w.room); capacity = cap ∙ w.capacity }

  not_over : (n : ℕ) (c : SampledCache T) → Within n c → ltb_ℤ c.capacity c.size ≡ false
  not_over n c w = ground (arith, w.capacity, w.sized.size, w.room)

  pub deleted-Within :
      (n : ℕ) (c : SampledCache T) (key : String) → Within n c → Within n (delete_item c key)
  unfolding delete_item ◌-ℤ◌
  deleted-Within n c key w = elim (Option-cases (lookup string_discrete key c.items)) [
    | inl e ↦ rw (e, delete_item) w
    | inr (item, e) ↦
        let shorter = length-delete_one string_discrete key item c.items w.sized.distinct e in
        rw (e, delete_item)
          (record {
            sized = record {
              size = ap (λ z. z -ℤ pos 1) w.sized.size ∙ ground (arith, shorter);
              distinct = delete-Distinct string_discrete key c.items w.sized.distinct;
              dated = All-delete Dated key c.items w.sized.dated;
            };
            room = omega (arith, shorter, w.room);
            capacity = w.capacity;
          })
  ]

  evict_or_keep :
      (n : ℕ) (c : SampledCache T) (key : String)
      → Within n c
      → Within n (elim (evict_key c key) [ none ↦ c | some c' ↦ c' ])
  evict_or_keep n c key w = elim (Option-cases (evict_key c key)) [
    | inl e ↦ rw e w
    | inr (d, e) ↦ rw e (evicted-Within n c d key w e)
  ]

  swept_one :
      (n now : ℕ) (c : SampledCache T) (k : String) (item : Item T)
      → Within n c
      → Within n (if is_expired item.expiration now then sweep_key now c k else c)
  unfolding sweep_key
  swept_one n now c k item w = elim (Bool-cases (is_expired item.expiration now)) [
    | inr e ↦ rw e w
    | inl e ↦ rw e (elim (Option-cases (lookup string_discrete k c.items)) [
      | inl f ↦ rw (f, sweep_key) w
      | inr (it, f) ↦ elim (Bool-cases (is_expired it.expiration now)) [
        | inl g ↦ rw (f, sweep_key) (rw g (evict_or_keep n c k w))
        | inr g ↦ rw (f, sweep_key) (rw g w)
      ]
    ])
  ]

  pub swept-Within :
      (n now : ℕ) (m : List (String × Item T)) (c : SampledCache T)
      → Within n c
      → Within n (sweep_loop now m c)
  unfolding sweep_loop sweep_key
  swept-Within n now [] c w = w
  swept-Within n now ((k, item) ∷ m) c w = swept-Within n now m _ (swept_one n now c k item w)

  -- The counters of hits and misses do not matter.
  counted :
      (n : ℕ) (c : SampledCache T) (h m : ℕ)
      → Within n c
      → Within n (record c { hits = h; misses = m })
  counted n c h m w = record {
    sized = record { size = w.sized.size; distinct = w.sized.distinct; dated = w.sized.dated };
    room = w.room;
    capacity = w.capacity;
  }

  pub got-Within :
      (n : ℕ) (c : SampledCache T) (key : String) (now later : ℕ)
      → Within n c
      → Within n (get c key now later).0
  unfolding get
  got-Within n c key now later w = elim (Option-cases (lookup string_discrete key c.items)) [
    | inl e ↦ rw (e, get) (counted n c _ _ w)
    | inr (item, e) ↦ elim (Bool-cases (is_live item now)) [
      | inl live ↦ rw (e, get) (rw live (counted n c _ _ w))
      | inr dead ↦ elim (Bool-cases (is_expired item.expiration later)) [
        | inl g ↦ rw (e, get) (rw dead (rw g (counted n _ _ _ (evict_or_keep n c key w))))
        | inr g ↦ rw (e, get) (rw dead (rw g (counted n c _ _ w)))
      ]
    ]
  ]

  module _ (range : RangeOrder T) where
    evict_if_needed-HasRoom :
        (n : ℕ) (now : ℕ → ℕ) (c : SampledCache T) (key : String)
        → Within n c
        → lookup string_discrete key c.items ≡ none
        → HasRoom c (evict_if_needed range now c key) key n
    unfolding evict_if_needed
    evict_if_needed-HasRoom n now c key w e =
        let positive : leb_ℤ c.capacity (pos 0) ≡ false = ground (arith, w.capacity) in
        rw (evict_if_needed, positive)
          (evict_loop-HasRoom range now (suc (length c.items)) n c key w.sized w.capacity e
            (omega arith))

    -- The entry is stored in a cache with room for it.
    inserted-Within :
        (n : ℕ) (c d : SampledCache T) (key : String) (item : Item T)
        → item.created_at < no_time
        → c.capacity ≡ pos (suc n)
        → HasRoom c d key n
        → Within n (swap_item d key item)
    unfolding swap_item
    inserted-Within n c d key item young same r = record {
      sized = swapped-Sized d key item young r.sized;
      room = omega (arith, r.room, length-insert_new string_discrete key item d.items r.absent);
      capacity = r.capacity ∙ same;
    }

    replaced-Within :
        (n : ℕ) (c : SampledCache T) (key : String) (item old : Item T)
        → item.created_at < no_time
        → Within n c
        → lookup string_discrete key c.items ≡ some old
        → Within n (swap_item c key item)
    unfolding swap_item
    replaced-Within n c key item old young w e = record {
      sized = swapped-Sized c key item young w.sized;
      room = omega (arith, w.room, length-insert_old string_discrete key item old c.items e);
      capacity = w.capacity;
    }

    pub store_item-Within :
        (n : ℕ) (now : ℕ → ℕ) (c : SampledCache T) (key : String) (item : Item T)
        → item.created_at < no_time
        → Within n c
        → Within n (store_item range now c key item)
    unfolding store_item
    store_item-Within n now c key item young w =
        let bounded : ltb_ℤ (pos 0) c.capacity ≡ true = ground (arith, w.capacity) in
        elim (Option-cases (lookup string_discrete key c.items)) [
          | inl e ↦
              let w' =
                inserted-Within n c (evict_if_needed range now c key) key item young w.capacity
                  (evict_if_needed-HasRoom n now c key w e) in
              rw (store_item, bounded) (rw e (rw (not_over n _ w') w'))
          | inr (old, e) ↦
              let w' = replaced-Within n c key item old young w e in
              rw (store_item, bounded) (rw e (rw (not_over n _ w') w'))
        ]
