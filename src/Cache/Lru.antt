-- ===== src/Cache/Lru.antt =====
-- cache/lru.go: `lruBackend`.
pub mod Refines
use go_libs.Common.{
  ℕ, ◌+◌, Bool, true, false, Option, none, some, String, if◌then◌else◌, ℤ, lookup, string_discrete,
}
use go_libs.Cache.Chain.{Node, add_to_front, remove_node}
use go_libs.Cache.Chain.Links.{is_at}
use go_libs.Cache.Linked.{LinkedBackend, expiry, is_expired, add_node, expire_node, set_value}

module _ {T : Type 0} where
  unfoldable pub move_to_front : LinkedBackend T → ℕ → LinkedBackend T
  move_to_front c i =
      if is_at c.chain.head i
      then c
      else record c { chain = add_to_front (remove_node c.chain i) i }

  unfoldable pub get : LinkedBackend T → String → ℕ → LinkedBackend T × Option T
  get c key now = elim (lookup string_discrete key c.items) [
    | none ↦ (record c { misses = c.misses + 1 }, none)
    | some i ↦
        if is_expired (c.chain.heap i).expiration now
        then (expire_node c key i, none)
        else (let c' = move_to_front c i in
            (record c' { hits = c'.hits + 1 }, some (c'.chain.heap i).value))
  ]

  unfoldable pub set : LinkedBackend T → String → T → Option ℤ → ℕ → LinkedBackend T
  set c key value ttl now = elim (lookup string_discrete key c.items) [
    | none ↦ add_node c key value (expiry ttl now)
    | some i ↦ move_to_front (set_value c i value (expiry ttl now)) i
  ]
