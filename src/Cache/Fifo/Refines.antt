-- ===== src/Cache/Fifo/Refines.antt =====
-- The FIFO backend against its policy.
use go_libs.Common.{
  ℕ, ◌≡◌, refl, Option, String, List, ℤ, lookup, string_discrete, inl, inr, Bool-cases,
  Option-cases,
}
use go_libs.Cache.Chain.Links.{erase}
use go_libs.Cache.Linked.{LinkedBackend, expiry, is_expired, expire_node, drop_node, set_value}
use go_libs.Cache.Linked.Represents.{
  found_at, missing, drop_node-Represents, set_value-Represents, add_node-Represents,
  add_node_capacity,
}
use go_libs.Cache.Linked.Traces.{Backed, RepresentsSome}
use go_libs.Cache.Policy.{Entry, fifo_get, fifo_set}
use go_libs.Cache.Fifo.{get, set}

module _ {T : Type 0} where
  pub get_right :
      (c : LinkedBackend T) (es : List (Entry T)) (k : String) (now : ℕ)
      → RepresentsSome c es
      → RepresentsSome (get c k now).0 (fifo_get k now es).0
        × ((get c k now).1 ≡ (fifo_get k now es).1)
        × ((get c k now).0.capacity ≡ c.capacity)
  unfolding get fifo_get expire_node drop_node
  get_right c es k now (is, r) = elim (Option-cases (lookup string_discrete k c.items)) [
    | inl miss ↦ rw (miss, get, fifo_get, missing c is es r k miss) ((is, r), refl, refl)
    | inr (i, there) ↦
        let (m, q, f, w) = found_at c is es r k i there in
        elim (Bool-cases (is_expired (c.chain.heap i).expiration now)) [
          | inl late ↦
              let gone = drop_node-Represents c is es r k i there in
              rw (there, get, fifo_get, f) (rw late ((erase i is, gone), refl, refl))
          | inr live ↦ rw (there, get, fifo_get, f) (rw live ((is, r), refl, refl))
        ]
  ]

  pub set_right :
      (c : LinkedBackend T) (es : List (Entry T)) (k : String) (v : T) (ttl : Option ℤ) (now : ℕ)
      → RepresentsSome c es
      → RepresentsSome (set c k v ttl now) (fifo_set c.capacity k v (expiry ttl now) es)
        × ((set c k v ttl now).capacity ≡ c.capacity)
  unfolding set fifo_set set_value
  set_right c es k v ttl now (is, r) = elim (Option-cases (lookup string_discrete k c.items)) [
    | inl miss ↦
        rw (miss, set, fifo_set, missing c is es r k miss)
          (
            add_node-Represents c is es r k v (expiry ttl now) miss,
            add_node_capacity c k v (expiry ttl now),
          )
    | inr (i, there) ↦
        let (m, q, f, w) = found_at c is es r k i there in
        rw (there, set, fifo_set, f)
          ((is, set_value-Represents c is es r k i v (expiry ttl now) there), refl)
  ]

  abbrev pub fifo : Backed T
  fifo = record {
    get = get;
    set = set;
    spec_get = fifo_get;
    spec_set = fifo_set;
    get_right = get_right;
    set_right = set_right;
  }
