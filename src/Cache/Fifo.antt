-- ===== src/Cache/Fifo.antt =====
-- cache/fifo.go: `fifoBackend`. `Get` and `Set` of a key that is there leave its place alone.
pub mod Refines
use go_libs.Common.{
  ℕ, ◌+◌, Bool, true, false, Option, none, some, String, if◌then◌else◌, ℤ, lookup, string_discrete,
}
use go_libs.Cache.Linked.{LinkedBackend, expiry, is_expired, add_node, expire_node, set_value}

module _ {T : Type 0} where
  unfoldable pub get : LinkedBackend T → String → ℕ → LinkedBackend T × Option T
  get c key now = elim (lookup string_discrete key c.items) [
    | none ↦ (record c { misses = c.misses + 1 }, none)
    | some i ↦
        if is_expired (c.chain.heap i).expiration now
        then (expire_node c key i, none)
        else (record c { hits = c.hits + 1 }, some (c.chain.heap i).value)
  ]

  unfoldable pub set : LinkedBackend T → String → T → Option ℤ → ℕ → LinkedBackend T
  set c key value ttl now = elim (lookup string_discrete key c.items) [
    | none ↦ add_node c key value (expiry ttl now)
    | some i ↦ set_value c i value (expiry ttl now)
  ]
