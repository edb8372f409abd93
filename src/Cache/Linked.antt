-- ===== src/Cache/Linked.antt =====
-- cache/lru.go and cache/fifo.go: both backends have the same fields, the same constructor and the same
-- `Delete`, `Len` and `evictOldest`. `zero` is the zero value of the type of values.
pub mod Index
pub mod Represents
pub mod Traces
use go_libs.Common.{
  ℕ, suc, ◌+◌, Bool, true, false, ◌&&◌, Option, none, some, String, List, [], ◌∷◌, if◌then◌else◌,
  ltb, leb, ℤ, pos, to_ℕ, leb_ℤ, ltb_ℤ, default_ℤ, lookup, insert, delete, string_discrete, length,
}
use go_libs.Cache.Chain.{Node, Heap, Chain, write, add_to_front, remove_node}

-- `fresh` is the address that the next `new` gives; `c.items` holds addresses.
pub record LinkedBackend (T : Type 0) : Type 0 where
  pub capacity : ℤ
  pub items : List (String × ℕ)
  pub chain : Chain T
  pub fresh : ℕ
  pub hits : ℕ
  pub misses : ℕ
  pub evictions : ℕ

module _ {T : Type 0} (zero : T) where
  abbrev pub nil_node : Node T
  nil_node = record { key = ""; value = zero; expiration = 0; prev = none; next = none }

  unfoldable pub new_backend : ℤ → LinkedBackend T
  new_backend capacity = record {
    capacity = default_ℤ capacity (pos 128);
    items = [];
    chain = record { heap = λ i. nil_node; head = none; tail = none };
    fresh = 0;
    hits = 0;
    misses = 0;
    evictions = 0;
  }

-- `now.Add(ttl[0]).UnixNano()`, if a positive time to live is given.
abbrev pub expiry : Option ℤ → ℕ → ℕ
expiry none now = 0
expiry (some ttl) now = if ltb_ℤ (pos 0) ttl then now + to_ℕ ttl else 0

-- `expiration > 0 && expiration <= now`.
abbrev pub is_expired : ℕ → ℕ → Bool
is_expired expiration now = ltb 0 expiration && leb expiration now

module _ {T : Type 0} where
  unfoldable pub evict_oldest : LinkedBackend T → LinkedBackend T
  evict_oldest c = elim c.chain.tail [
    | none ↦ c
    | some i ↦
        let chain = remove_node c.chain i in
        record c {
          chain = chain;
          items = delete string_discrete (chain.heap i).key c.items;
          evictions = c.evictions + 1;
        }
  ]

  -- `c.removeNode(node); delete(c.items, key)`.
  unfoldable pub drop_node : LinkedBackend T → String → ℕ → LinkedBackend T
  drop_node c key i = record c {
    chain = remove_node c.chain i;
    items = delete string_discrete key c.items;
  }

  unfoldable pub delete_key : LinkedBackend T → String → LinkedBackend T
  delete_key c key = elim (lookup string_discrete key c.items) [
    | none ↦ c
    | some i ↦ drop_node c key i
  ]

  unfoldable pub len_of : LinkedBackend T → ℕ
  len_of c = length c.items

  -- `addToFront` of a new node, and its key in the map.
  unfoldable pub insert_node : LinkedBackend T → String → T → ℕ → LinkedBackend T
  insert_node c key value expiration =
      let node : Node T = record {
        key = key;
        value = value;
        expiration = expiration;
        prev = none;
        next = none;
      } in
      record c {
        chain = add_to_front (record c.chain { heap = write c.chain.heap c.fresh node }) c.fresh;
        items = insert string_discrete key c.fresh c.items;
        fresh = suc c.fresh;
      }

  -- `Set` of a key that is not there.
  unfoldable pub add_node : LinkedBackend T → String → T → ℕ → LinkedBackend T
  add_node c key value expiration =
      insert_node (if leb_ℤ c.capacity (pos (length c.items)) then evict_oldest c else c) key value
        expiration

  -- An expired node found by `Get`.
  unfoldable pub expire_node : LinkedBackend T → String → ℕ → LinkedBackend T
  expire_node c key i =
      let c' = drop_node c key i in
      record c' { evictions = c'.evictions + 1; misses = c'.misses + 1 }

  -- `node.value = value; node.expiration = exp`.
  unfoldable pub set_value : LinkedBackend T → ℕ → T → ℕ → LinkedBackend T
  set_value c i value expiration =
      let node : Node T = record (c.chain.heap i) { value = value; expiration = expiration } in
      record c { chain = record c.chain { heap = write c.chain.heap i node } }
