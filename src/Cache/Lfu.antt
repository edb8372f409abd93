-- ===== src/Cache/Lfu.antt =====
-- cache/lfu.go: `lfuBackend`. The list functions `pushFront` and `remove` are those of cache/lru.go with a
-- length, so a list is a chain on the heap that all buckets share. `freq` stands beside a node's value.
pub mod Stored
use go_libs.Common.{
  ℕ, suc, ◌+◌, ◌-◌, ◌==◌, Bool, true, false, ◌&&◌, Option, none, some, String, List, [], ◌∷◌,
  if◌then◌else◌, ℤ, pos, ◌+ℤ◌, ◌-ℤ◌, leb_ℤ, default_ℤ, lookup, insert, delete, string_discrete,
  length, ℕ_discrete,
}
use go_libs.Cache.Chain.{Node, Heap, Chain, write, add_to_front, remove_node}
use go_libs.Cache.Linked.{expiry, is_expired}

pub record Counted (T : Type 0) : Type 0 where
  pub value : T
  pub freq : ℕ

-- `lfuList`, without its heap.
pub record LfuList : Type 0 where
  pub head : Option ℕ
  pub tail : Option ℕ
  pub len : ℤ

abbrev pub is_zero : ℤ → Bool
is_zero n = leb_ℤ n (pos 0) && leb_ℤ (pos 0) n

abbrev pub empty_list : LfuList
empty_list = record { head = none; tail = none; len = pos 0 }

-- `fresh` is the address that the next `new` gives. A bucket in the map is a pointer to its list, which only
-- the map holds.
pub record LfuBackend (T : Type 0) : Type 0 where
  pub capacity : ℤ
  pub min_freq : ℕ
  pub items : List (String × ℕ)
  pub freq_buckets : List (ℕ × LfuList)
  pub heap : Heap (Counted T)
  pub fresh : ℕ
  pub hits : ℕ
  pub misses : ℕ
  pub evictions : ℕ

module _ {T : Type 0} where
  abbrev pub chain_of : Heap (Counted T) → LfuList → Chain (Counted T)
  chain_of h l = record { heap = h; head = l.head; tail = l.tail }

  unfoldable pub push_front : Heap (Counted T) → LfuList → ℕ → Heap (Counted T) × LfuList
  push_front h l node =
      let c = add_to_front (chain_of h l) node in
      (c.heap, record { head = c.head; tail = c.tail; len = l.len +ℤ pos 1 })

  unfoldable pub remove_from : Heap (Counted T) → LfuList → ℕ → Heap (Counted T) × LfuList
  remove_from h l node =
      let c = remove_node (chain_of h l) node in
      (c.heap, record { head = c.head; tail = c.tail; len = l.len -ℤ pos 1 })

  unfoldable pub pop_tail : Heap (Counted T) → LfuList → Option ℕ × Heap (Counted T) × LfuList
  pop_tail h l = elim l.tail [
    | none ↦ (none, h, l)
    | some t ↦ let (h', l') = remove_from h l t in (some t, h', l')
  ]

  unfoldable pub new_lfu_backend : T → ℤ → LfuBackend T
  new_lfu_backend blank capacity = record {
    capacity = default_ℤ capacity (pos 128);
    min_freq = 0;
    items = [];
    freq_buckets = [];
    heap = λ i. record {
      key = "";
      value = record { value = blank; freq = 0 };
      expiration = 0;
      prev = none;
      next = none;
    };
    fresh = 0;
    hits = 0;
    misses = 0;
    evictions = 0;
  }

  abbrev pub freq_of : LfuBackend T → ℕ → ℕ
  freq_of c node = (c.heap node).value.freq

  unfoldable pub get_bucket : LfuBackend T → ℕ → LfuBackend T × LfuList
  get_bucket c freq = elim (lookup ℕ_discrete freq c.freq_buckets) [
    | some bucket ↦ (c, bucket)
    | none ↦
        (record c { freq_buckets = insert ℕ_discrete freq empty_list c.freq_buckets }, empty_list)
  ]

  -- A change of the list of a bucket that is in the map.
  abbrev pub put_bucket : LfuBackend T → ℕ → Heap (Counted T) × LfuList → LfuBackend T
  put_bucket c freq (h, l) = record c {
    heap = h;
    freq_buckets = insert ℕ_discrete freq l c.freq_buckets;
  }

  -- `c.getBucket(freq).pushFront(node)`.
  unfoldable pub push_node : LfuBackend T → ℕ → ℕ → LfuBackend T
  push_node c freq node =
      let (c', bucket) = get_bucket c freq in put_bucket c' freq (push_front c'.heap bucket node)

  -- `removeNode`, which is also the start of `incrementFreq`.
  unfoldable pub unlink : LfuBackend T → ℕ → LfuBackend T
  unlink c node =
      let freq = freq_of c node in
      elim (lookup ℕ_discrete freq c.freq_buckets) [
        | none ↦ c
        | some bucket ↦
            let (h, l) = remove_from c.heap bucket node in
            let c' = put_bucket c freq (h, l) in
            if freq == c.min_freq && is_zero l.len
            then record c' { min_freq = c.min_freq + 1 }
            else c'
      ]

  unfoldable pub increment_freq : LfuBackend T → ℕ → LfuBackend T
  increment_freq c node =
      let d = unlink c node in
      let n : Node (Counted T) = d.heap node in
      let used : Counted T = record n.value { freq = suc n.value.freq } in
      push_node (record d { heap = write d.heap node (record n { value = used }) })
        (suc n.value.freq) node

  unfoldable pub evict_min_freq : LfuBackend T → LfuBackend T
  evict_min_freq c = elim (lookup ℕ_discrete c.min_freq c.freq_buckets) [
    | none ↦ c
    | some bucket ↦
        if is_zero bucket.len
        then c
        else (let (victim, h, l) = pop_tail c.heap bucket in
            let c' = put_bucket c c.min_freq (h, l) in
            elim victim [
              | none ↦ c'
              | some i ↦ record c' {
                items = delete string_discrete (h i).key c.items;
                evictions = c.evictions + 1;
              }
            ])
  ]

  -- A new node in the map and in the bucket of 1.
  unfoldable pub add_counted : LfuBackend T → String → T → ℕ → LfuBackend T
  add_counted c key value expiration =
      let used : Counted T = record { value = value; freq = 1 } in
      let node : Node (Counted T) = record {
        key = key;
        value = used;
        expiration = expiration;
        prev = none;
        next = none;
      } in
      let d =
        push_node
          (record c {
            items = insert string_discrete key c.fresh c.items;
            heap = write c.heap c.fresh node;
            fresh = suc c.fresh;
          })
          1 c.fresh in
      record d { min_freq = 1 }

  unfoldable pub drop_counted : LfuBackend T → String → ℕ → LfuBackend T
  drop_counted c key node =
      let d = unlink c node in record d { items = delete string_discrete key d.items }

  unfoldable pub get : LfuBackend T → String → ℕ → LfuBackend T × Option T
  get c key now = elim (lookup string_discrete key c.items) [
    | none ↦ (record c { misses = c.misses + 1 }, none)
    | some i ↦
        if is_expired (c.heap i).expiration now
        then (let d = drop_counted c key i in
            (record d { evictions = d.evictions + 1; misses = d.misses + 1 }, none))
        else (let d = increment_freq c i in
            (record d { hits = d.hits + 1 }, some (d.heap i).value.value))
  ]

  -- `node.value = value; node.expiration = exp`.
  unfoldable pub store_counted : LfuBackend T → ℕ → T → ℕ → LfuBackend T
  store_counted c i value expiration =
      let n : Node (Counted T) = c.heap i in
      let used : Counted T = record n.value { value = value } in
      record c { heap = write c.heap i (record n { value = used; expiration = expiration }) }

  unfoldable pub set : LfuBackend T → String → T → Option ℤ → ℕ → LfuBackend T
  set c key value ttl now = elim (lookup string_discrete key c.items) [
    | some i ↦ increment_freq (store_counted c i value (expiry ttl now)) i
    | none ↦
        add_counted (if leb_ℤ c.capacity (pos (length c.items)) then evict_min_freq c else c) key
          value (expiry ttl now)
  ]

  unfoldable pub delete_counted : LfuBackend T → String → LfuBackend T
  delete_counted c key = elim (lookup string_discrete key c.items) [
    | none ↦ c
    | some i ↦ drop_counted c key i
  ]

  unfoldable pub len_counted : LfuBackend T → ℕ
  len_counted c = length c.items
