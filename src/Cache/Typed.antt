-- ===== src/Cache/Typed.antt =====
-- cache/cache.go: `TypedCache`, which passes each call on to the backend of its policy.
pub mod Calls
use go_libs.Common.{ℕ, Bool, Option, none, some, ◌⊎◌, String, List, [], ◌∷◌, ℤ, pos, default_ℤ}
use go_libs.Cache.Linked.{LinkedBackend, new_backend, delete_key, len_of}
use go_libs.Cache.Lru
use go_libs.Cache.Fifo
use go_libs.Cache.Lfu
use go_libs.Cache.Lfu.{LfuBackend, new_lfu_backend, delete_counted, len_counted}
use go_libs.Cache.Sampled
use go_libs.Cache.Sampled.{SampledCache, new_sampled, sweep_loop}
use go_libs.Cache.Sampled.Sampling
use go_libs.Cache.Sampled.Sampling.{RangeOrder}
use go_libs.Cache.Fetch.{Flight, fetch_through}

pub data EvictionPolicy : Type 0 where
  eviction_sampled_lru eviction_lru eviction_lfu eviction_fifo : EvictionPolicy

-- The policy, with the only backend that is not nil then.
pub data TypedCache (T : Type 0) : Type 0 where
  sampled : SampledCache T → TypedCache T
  lru : LinkedBackend T → TypedCache T
  lfu : LfuBackend T → TypedCache T
  fifo : LinkedBackend T → TypedCache T

module _ {T : Type 0} where
  -- `NewTypedCache` after its options; `ensureInit` makes the same choice.
  unfoldable pub new_typed_cache : (blank : T) → EvictionPolicy → (capacity : ℤ) → TypedCache T
  new_typed_cache blank eviction_sampled_lru capacity = sampled (new_sampled capacity)
  new_typed_cache blank eviction_lru capacity =
      lru (new_backend blank (default_ℤ capacity (pos 128)))
  new_typed_cache blank eviction_lfu capacity =
      lfu (new_lfu_backend blank (default_ℤ capacity (pos 128)))
  new_typed_cache blank eviction_fifo capacity =
      fifo (new_backend blank (default_ℤ capacity (pos 128)))

  unfoldable pub typed_get : TypedCache T → String → (now later : ℕ) → TypedCache T × Option T
  typed_get (sampled c) key now later = let (c', v) = Sampled.get c key now later in (sampled c', v)
  typed_get (lru c) key now later = let (c', v) = Lru.get c key now in (lru c', v)
  typed_get (lfu c) key now later = let (c', v) = Lfu.get c key now in (lfu c', v)
  typed_get (fifo c) key now later = let (c', v) = Fifo.get c key now in (fifo c', v)

  unfoldable pub typed_delete : TypedCache T → String → TypedCache T
  typed_delete (sampled c) key = sampled (Sampled.delete_item c key)
  typed_delete (lru c) key = lru (delete_key c key)
  typed_delete (lfu c) key = lfu (delete_counted c key)
  typed_delete (fifo c) key = fifo (delete_key c key)

  unfoldable pub typed_len : TypedCache T → ℕ
  typed_len (sampled c) = Sampled.len_of c
  typed_len (lru c) = len_of c
  typed_len (lfu c) = len_counted c
  typed_len (fifo c) = len_of c

module _ {T : Type 0} (range : RangeOrder T) where
  -- `clock` is what the eviction reads.
  unfoldable pub typed_set : (ℕ → ℕ) → TypedCache T → String → T → Option ℤ → ℕ → TypedCache T
  typed_set clock (sampled c) key value ttl stored =
      sampled (Sampling.set range clock c key value ttl stored)
  typed_set clock (lru c) key value ttl stored = lru (Lru.set c key value ttl stored)
  typed_set clock (lfu c) key value ttl stored = lfu (Lfu.set c key value ttl stored)
  typed_set clock (fifo c) key value ttl stored = fifo (Fifo.set c key value ttl stored)

  unfoldable pub typed_get_or_fetch :
      {E : Type 0}
      → (ℕ → ℕ)
      → TypedCache T
      → String
      → ℤ
      → Flight T E
      → TypedCache T × (T ⊎ E) × Bool
  typed_get_or_fetch clock (sampled c) key ttl w =
      let (c', a, called) = Sampling.get_or_fetch range clock c key ttl w in (sampled c', a, called)
  typed_get_or_fetch clock (lru c) key ttl w =
      let (c', a, called) = fetch_through Lru.get Lru.set c key ttl w in (lru c', a, called)
  typed_get_or_fetch clock (lfu c) key ttl w =
      let (c', a, called) = fetch_through Lfu.get Lfu.set c key ttl w in (lfu c', a, called)
  typed_get_or_fetch clock (fifo c) key ttl w =
      let (c', a, called) = fetch_through Fifo.get Fifo.set c key ttl w in (fifo c', a, called)

  -- One tick of `startEviction`. Only the sampled policy keeps entries in the map that it sweeps.
  unfoldable pub typed_sweep : ℕ → TypedCache T → TypedCache T
  typed_sweep now (sampled c) = sampled (sweep_loop now (range.visits c.items) c)
  typed_sweep now (lru c) = lru c
  typed_sweep now (lfu c) = lfu c
  typed_sweep now (fifo c) = fifo c
