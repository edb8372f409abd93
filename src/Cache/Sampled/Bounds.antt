-- ===== src/Cache/Sampled/Bounds.antt =====
-- The number of entries of a cache under `EvictionSampledLRU`, for calls that run one after another.
use go_libs.Common.{
  ℕ, suc, ◌≡◌, ◌≤◌, ◌<◌, refl, Option, String, List, [], ◌∷◌, All, arith, length, ℤ, pos, ◌+◌, some,
  inl, inr, lookup, string_discrete, Bool-cases, Option-cases,
}
use go_libs.Cache.Linked.{expiry}
use go_libs.Cache.Sampled.{SampledCache, new_sampled, get, delete_item, len_of, sweep_loop, is_live}
use go_libs.Cache.Fetch.{Flight}
use go_libs.Cache.Sampled.Sampling.{no_time, RangeOrder, set, fetch_missing, get_or_fetch}
use go_libs.Cache.Sampled.Within.{
  Within, store_item-Within, deleted-Within, swept-Within, got-Within,
}

-- A call with its clock readings and, for `GetOrFetch`, its flight, whose error is of no matter here. `sweep_call` is one tick of the goroutine that `WithEvictionInterval` starts.
pub data Call (T : Type 0) : Type 0 where
  set_call : String → T → Option ℤ → ℕ → (ℕ → ℕ) → Call T
  get_call : String → (now later : ℕ) → Call T
  delete_call : String → Call T
  fetch_call : String → ℤ → Flight T Unit → (ℕ → ℕ) → Call T
  sweep_call : ℕ → Call T

module _ {T : Type 0} where
  -- The clock has not reached the greatest int64.
  abbrev pub InTime : Call T → Type 0
  InTime (set_call key value ttl stored now) = stored < no_time
  InTime (fetch_call key ttl w now) = w.stored < no_time
  InTime _ = Unit

  module _ (range : RangeOrder T) where
    unfoldable pub run_call : SampledCache T → Call T → SampledCache T
    run_call c (set_call key value ttl stored now) = set range now c key value ttl stored
    run_call c (get_call key now later) = (get c key now later).0
    run_call c (delete_call key) = delete_item c key
    run_call c (fetch_call key ttl w now) = (get_or_fetch range now c key ttl w).0
    run_call c (sweep_call now) = sweep_loop now (range.visits c.items) c

    unfoldable pub run_calls : SampledCache T → List (Call T) → SampledCache T
    run_calls c [] = c
    run_calls c (o ∷ os) = run_calls (run_call c o) os

    missed-Within :
        (n : ℕ) (c : SampledCache T) → Within n c → Within n (record c { misses = c.misses + 1 })
    missed-Within n c w = record {
      sized = record { size = w.sized.size; distinct = w.sized.distinct; dated = w.sized.dated };
      room = w.room;
      capacity = w.capacity;
    }

    hit-Within :
        (n : ℕ) (c : SampledCache T) → Within n c → Within n (record c { hits = c.hits + 1 })
    hit-Within n c w = record {
      sized = record { size = w.sized.size; distinct = w.sized.distinct; dated = w.sized.dated };
      room = w.room;
      capacity = w.capacity;
    }

    fetch_missing-Within :
        (n : ℕ) (c : SampledCache T) (key : String) (ttl : ℤ) (w : Flight T Unit) (now : ℕ → ℕ)
        → w.stored < no_time
        → Within n c
        → Within n (fetch_missing range now c key ttl w).0
    unfolding fetch_missing set
    fetch_missing-Within n c key ttl w now t h =
        elim w.returned
          as (λ r. Within n (fetch_missing range now c key ttl (record w { returned = r })).0) [
            | inr e ↦ h
            | inl v ↦
                store_item-Within range n now c key
                  (record {
                    value = v;
                    expiration = expiry (some ttl) w.stored;
                    created_at = w.stored;
                  })
                  t h
          ]

    get_or_fetch-Within :
        (n : ℕ) (c : SampledCache T) (key : String) (ttl : ℤ) (w : Flight T Unit) (now : ℕ → ℕ)
        → w.stored < no_time
        → Within n c
        → Within n (get_or_fetch range now c key ttl w).0
    unfolding get_or_fetch
    get_or_fetch-Within n c key ttl w now t h =
        let missed =
          fetch_missing-Within n (record c { misses = c.misses + 1 }) key ttl w now t
            (missed-Within n c h) in
        elim (Option-cases w.ctx_err) [
          | inr (e, x) ↦ rw (x, get_or_fetch) h
          | inl x ↦ elim (Option-cases (lookup string_discrete key c.items)) [
            | inl y ↦ rw (x, get_or_fetch) (rw y missed)
            | inr (item, y) ↦ elim (Bool-cases (is_live item w.looked_up)) [
              | inl z ↦ rw (x, get_or_fetch) (rw y (rw z (hit-Within n c h)))
              | inr z ↦ rw (x, get_or_fetch) (rw y (rw z missed))
            ]
          ]
        ]

    run_call-Within :
        (n : ℕ) (c : SampledCache T) (o : Call T) → InTime o → Within n c → Within n (run_call c o)
    unfolding run_call set
    run_call-Within n c (set_call key value ttl stored now) t w =
        store_item-Within range n now c key
          (record { value = value; expiration = expiry ttl stored; created_at = stored }) t w
    run_call-Within n c (get_call key now later) t w = got-Within n c key now later w
    run_call-Within n c (delete_call key) t w = deleted-Within n c key w
    run_call-Within n c (fetch_call key ttl f now) t w = get_or_fetch-Within n c key ttl f now t w
    run_call-Within n c (sweep_call now) t w = swept-Within n now (range.visits c.items) c w

    run_calls-Within :
        (n : ℕ) (c : SampledCache T) (os : List (Call T))
        → All InTime os
        → Within n c
        → Within n (run_calls c os)
    unfolding run_calls
    run_calls-Within n c [] t w = w
    run_calls-Within n c (o ∷ os) (t, ts) w =
        run_calls-Within n (run_call c o) os ts (run_call-Within n c o t w)

    new_sampled-Within : (n : ℕ) → Within n (new_sampled {T = T} (pos (suc n)))
    unfolding new_sampled
    new_sampled-Within n = record {
      sized = record { size = refl; distinct = tt; dated = tt };
      room = omega arith;
      capacity = refl;
    }

    -- After any calls of `Set`, `Get`, `GetOrFetch` and `Delete` and any sweeps on a new cache with a positive capacity,
    -- each of which runs as a whole before the next, and in whatever order the map is visited, the cache holds no more
    -- entries than the capacity, and `Len` is the number of entries that the map holds, if the clock is
    -- below the greatest int64 and no two callers of `GetOrFetch` share a flight.
    pub sampled_len_bounded :
        (n : ℕ) (os : List (Call T))
        → All InTime os
        → let c : SampledCache T = run_calls (new_sampled (pos (suc n))) os in
          (len_of c ≤ suc n) × (len_of c ≡ length c.items)
    unfolding len_of
    sampled_len_bounded n os t =
        let w = run_calls-Within n (new_sampled (pos (suc n))) os t (new_sampled-Within n) in
        (ground (arith, w.sized.size, w.room), ground (arith, w.sized.size))
