-- ===== src/Cache/Typed/Calls.antt =====
-- What callers of a `TypedCache` rely on under every policy.
use go_libs.Common.{List, [], ◌∷◌}
use go_libs.Cache.Linked.Traces.{RepresentsSome}
use go_libs.Cache.Policy.{Entry}
use go_libs.Cache.Lru.Refines.{lru as lru_backed}
use go_libs.Cache.Fifo.Refines.{fifo as fifo_backed}
use go_libs.Cache.Sampled.Sampling.{RangeOrder}
use go_libs.Cache.Sampled.Bounds.{Call, set_call, get_call, delete_call, fetch_call, sweep_call}
use go_libs.Cache.Typed.{
  TypedCache, sampled, lru, lfu, fifo, typed_get, typed_set, typed_delete, typed_sweep,
  typed_get_or_fetch,
}

module _ {T : Type 0} where
  -- The links of an LRU or a FIFO backend stand for some list of entries.
  abbrev pub Sound : TypedCache T → Type 0
  Sound (sampled c) = Unit
  Sound (lru c) = (es : List (Entry T)) × RepresentsSome c es
  Sound (lfu c) = Unit
  Sound (fifo c) = (es : List (Entry T)) × RepresentsSome c es

  module _ (range : RangeOrder T) where
    unfoldable pub typed_call : TypedCache T → Call T → TypedCache T
    typed_call c (set_call key value ttl stored clock) =
        typed_set range clock c key value ttl stored
    typed_call c (get_call key now later) = (typed_get c key now later).0
    typed_call c (delete_call key) = typed_delete c key
    typed_call c (fetch_call key ttl w clock) = (typed_get_or_fetch range clock c key ttl w).0
    typed_call c (sweep_call now) = typed_sweep range now c

    unfoldable pub typed_calls : TypedCache T → List (Call T) → TypedCache T
    typed_calls c [] = c
    typed_calls c (o ∷ os) = typed_calls (typed_call c o) os
