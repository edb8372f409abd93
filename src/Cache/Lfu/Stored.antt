-- ===== src/Cache/Lfu/Stored.antt =====
-- What `Set` of the LFU cache stores, `Get` finds.
use go_libs.Common.{
  ℕ, suc, ◌==◌, ◌≡◌, refl, ap, ◌∙◌, false, ◌&&◌, Option, none, some, String, ℤ, lookup, insert,
  string_discrete, ℕ_discrete, lookup-insert_self, inl, inr, Bool-cases, Option-cases, arith,
}
use go_libs.Cache.Chain.{Node, write, payload-add_to_front, payload-remove_node}
use go_libs.Cache.Linked.{expiry, is_expired}
use go_libs.Cache.Lfu.{
  Counted, LfuBackend, is_zero, push_front, remove_from, get_bucket, push_node, unlink,
  increment_freq, add_counted, store_counted, get, set, chain_of,
}

module _ {T : Type 0} where
  get_bucket-items : (c : LfuBackend T) (freq : ℕ) → (get_bucket c freq).0.items ≡ c.items
  unfolding get_bucket
  get_bucket-items c freq = ground arith

  get_bucket-heap : (c : LfuBackend T) (freq : ℕ) → (get_bucket c freq).0.heap ≡ c.heap
  unfolding get_bucket
  get_bucket-heap c freq = ground arith

  -- `d` has the keys, the values and the expirations of `c`.
  record Keeps (c d : LfuBackend T) : Type 0 where
    items : d.items ≡ c.items
    value : (j : ℕ) → (d.heap j).value.value ≡ (c.heap j).value.value
    expiration : (j : ℕ) → (d.heap j).expiration ≡ (c.heap j).expiration

  Keeps-push_node : (c : LfuBackend T) (freq i : ℕ) → Keeps c (push_node c freq i)
  unfolding push_node push_front
  Keeps-push_node c freq i =
      let b = get_bucket c freq in
      let same = payload-add_to_front (chain_of b.0.heap b.1) i in
      let heap = get_bucket-heap c freq in
      record {
        items = get_bucket-items c freq;
        value = λ j. ap (λ p. p.1.value) (same j) ∙ ap (λ h. (h j).value.value) heap;
        expiration = λ j. ap (λ p. p.2) (same j) ∙ ap (λ h. (h j).expiration) heap;
      }

  Keeps-unlink : (c : LfuBackend T) (i : ℕ) → Keeps c (unlink c i)
  unfolding unlink remove_from
  Keeps-unlink c i = elim (Option-cases (lookup ℕ_discrete (c.heap i).value.freq c.freq_buckets)) [
    | inl e ↦ rw (e, unlink) (record { items = refl; value = λ j. refl; expiration = λ j. refl })
    | inr (bucket, e) ↦
        let same = payload-remove_node (chain_of c.heap bucket) i in
        rw (e, unlink)
          (elim (Bool-cases
            ((c.heap i).value.freq == c.min_freq && is_zero (remove_from c.heap bucket i).1.len)) [
              | inl last ↦ rw last (record {
                items = refl;
                value = λ j. ap (λ p. p.1.value) (same j);
                expiration = λ j. ap (λ p. p.2) (same j);
              })
              | inr more ↦ rw more (record {
                items = refl;
                value = λ j. ap (λ p. p.1.value) (same j);
                expiration = λ j. ap (λ p. p.2) (same j);
              })
            ])
  ]

  Keeps-increment_freq : (c : LfuBackend T) (i : ℕ) → Keeps c (increment_freq c i)
  unfolding increment_freq write
  Keeps-increment_freq c i =
      let k = Keeps-unlink c i in
      let d = unlink c i in
      let n : Node (Counted T) = d.heap i in
      let used : Counted T = record n.value { freq = suc n.value.freq } in
      let e : LfuBackend T = record d { heap = write d.heap i (record n { value = used }) } in
      let m = Keeps-push_node e (suc n.value.freq) i in
      let written : (j : ℕ) → (e.heap j).value.value ≡ (d.heap j).value.value = λ j. ground arith in
      let kept : (j : ℕ) → (e.heap j).expiration ≡ (d.heap j).expiration = λ j. ground arith in
      record {
        items = m.items ∙ k.items;
        value = λ j. m.value j ∙ written j ∙ k.value j;
        expiration = λ j. m.expiration j ∙ kept j ∙ k.expiration j;
      }

  -- The key is in the map, with a node that has the value and the expiration.
  record Stored (c : LfuBackend T) (key : String) (value : T) (expiration : ℕ) : Type 0 where
    node : ℕ
    there : lookup string_discrete key c.items ≡ some node
    has_value : (c.heap node).value.value ≡ value
    has_expiration : (c.heap node).expiration ≡ expiration

  Stored-Keeps :
      (c d : LfuBackend T) (key : String) (value : T) (expiration : ℕ)
      → Keeps c d
      → Stored c key value expiration
      → Stored d key value expiration
  Stored-Keeps c d key value expiration k s = record {
    node = s.node;
    there = ap (lookup string_discrete key) k.items ∙ s.there;
    has_value = k.value s.node ∙ s.has_value;
    has_expiration = k.expiration s.node ∙ s.has_expiration;
  }

  Stored-store_counted :
      (c : LfuBackend T) (key : String) (i : ℕ) (value : T) (expiration : ℕ)
      → lookup string_discrete key c.items ≡ some i
      → Stored (store_counted c i value expiration) key value expiration
  unfolding store_counted write
  Stored-store_counted c key i value expiration e = record {
    node = i;
    there = e;
    has_value = ground arith;
    has_expiration = ground arith;
  }

  Stored-add_counted :
      (c : LfuBackend T) (key : String) (value : T) (expiration : ℕ)
      → Stored (add_counted c key value expiration) key value expiration
  unfolding add_counted write
  Stored-add_counted c key value expiration =
      let used : Counted T = record { value = value; freq = 1 } in
      let node : Node (Counted T) = record {
        key = key;
        value = used;
        expiration = expiration;
        prev = none;
        next = none;
      } in
      let d : LfuBackend T = record c {
        items = insert string_discrete key c.fresh c.items;
        heap = write c.heap c.fresh node;
        fresh = suc c.fresh;
      } in
      let k = Keeps-push_node d 1 c.fresh in
      let v : (d.heap c.fresh).value.value ≡ value = ground arith in
      let x : (d.heap c.fresh).expiration ≡ expiration = ground arith in
      record {
        node = c.fresh;
        there =
            ap (lookup string_discrete key) k.items
            ∙ lookup-insert_self string_discrete key c.fresh c.items;
        has_value = k.value c.fresh ∙ v;
        has_expiration = k.expiration c.fresh ∙ x;
      }

  set-Stored :
      (c : LfuBackend T) (key : String) (value : T) (ttl : Option ℤ) (now : ℕ)
      → Stored (set c key value ttl now) key value (expiry ttl now)
  unfolding set
  set-Stored c key value ttl now = elim (Option-cases (lookup string_discrete key c.items)) [
    | inl e ↦ rw (e, set) (Stored-add_counted _ key value (expiry ttl now))
    | inr (i, e) ↦
        rw (e, set)
          (Stored-Keeps _ _ key value (expiry ttl now)
            (Keeps-increment_freq (store_counted c i value (expiry ttl now)) i)
            (Stored-store_counted c key i value (expiry ttl now) e))
  ]

  found_Stored :
      (c : LfuBackend T) (key : String) (value : T) (expiration now : ℕ)
      → Stored c key value expiration
      → is_expired expiration now ≡ false
      → (get c key now).1 ≡ some value
  unfolding get
  found_Stored c key value expiration now s live =
      let fresh : is_expired (c.heap s.node).expiration now ≡ false =
        ap (λ x. is_expired x now) s.has_expiration ∙ live in
      rw (s.there, get)
        (rw fresh (ap some ((Keeps-increment_freq c s.node).value s.node ∙ s.has_value)))

  -- In every state of an LFU cache, full or not and with any links: what `Set` stores under a key is
  -- what `Get` of the key answers before it expires.
  pub get-set :
      (c : LfuBackend T) (key : String) (value : T) (ttl : Option ℤ) (stored now : ℕ)
      → is_expired (expiry ttl stored) now ≡ false
      → (get (set c key value ttl stored) key now).1 ≡ some value
  get-set c key value ttl stored now live =
      found_Stored (set c key value ttl stored) key value (expiry ttl stored) now
        (set-Stored c key value ttl stored) live
