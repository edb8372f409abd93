-- ===== src/Cache/Linked/Represents.antt =====
-- What a linked backend stands for, and what its parts do to that.
use go_libs.Common.{
  ℕ, suc, ◌<◌, ◌≡◌, refl, sym, ap, ◌∙◌, subst, true, false, ◌==◌, none, some, String, List, [], ◌∷◌,
  arith, lookup, insert, delete, lookup-delete-none, string_discrete, length, map, pos, leb_ℤ, inl,
  inr, Bool-cases, All,
}
use go_libs.Cache.Chain.{
  Node, Heap, Chain, payload, write, add_to_front, remove_node, payload-add_to_front,
  payload-remove_node,
}
use go_libs.Cache.Chain.Links.{
  has, Once, erase, last-some, Stands, SameLinks, frame, add_to_front-Stands,
}
use go_libs.Cache.Chain.Unlink.{remove_node-Stands}
use go_libs.Cache.Linked.{LinkedBackend, evict_oldest, drop_node, add_node, insert_node, set_value}
use go_libs.Cache.Linked.Index.{
  id_of, id_of-has, id_of_key, Indexed, Indexed-agree, erase-Indexed, front-Indexed, insert-Indexed,
}
use go_libs.Cache.Policy.{
  Entry, keys, find, without, replace, drop_last, push, find-map-some, find-map-none, without-map,
  drop_last-map, last-has, map_agree, replace-map,
}

All-erase : (n i : ℕ) (is : List ℕ) → All (λ j. j < n) is → All (λ j. j < n) (erase i is)
All-erase n i [] a = tt
All-erase n i (j ∷ is) a = ground (arith, All-erase n i is a.1)

All-has : (n i : ℕ) (is : List ℕ) → All (λ j. j < n) is → has i is ≡ true → i < n
All-has n i [] a m = cc
All-has n i (j ∷ is) a m = ground (arith, All-has n i is a.1)

has-erase_self : (i : ℕ) (is : List ℕ) → Once is → has i (erase i is) ≡ false
has-erase_self i [] o = refl
has-erase_self i (j ∷ is) o = ground (arith, has-erase_self i is o.1)

young_not_fresh : (n : ℕ) (is : List ℕ) → All (λ j. j < n) is → has n is ≡ false
young_not_fresh n [] a = refl
young_not_fresh n (j ∷ is) a = ground (arith, young_not_fresh n is a.1)

All-later : (n : ℕ) (is : List ℕ) → All (λ j. j < n) is → All (λ j. j < suc n) is
All-later n [] a = tt
All-later n (j ∷ is) a = ground (arith, All-later n is a.1)

length-map_entries : {A B : Type 0} (f : A → B) (xs : List A) → length (map f xs) ≡ length xs
length-map_entries f [] = refl
length-map_entries f (x ∷ xs) = ap suc (length-map_entries f xs)

other_than : (i j : ℕ) (is : List ℕ) → has i is ≡ false → has j is ≡ true → (i == j) ≡ false
other_than i j is o m = ground arith

module _ {T : Type 0} where
  write_other : (h : Heap T) (i j : ℕ) (n : Node T) → (i == j) ≡ false → write h i n j ≡ h j
  unfolding write
  write_other h i j n e = rw e refl

  -- The entry at each address.
  abbrev pub entry_at : Chain T → ℕ → Entry T
  entry_at c i = payload (c.heap i)

  -- The chain, the map and the addresses in use stand for the entries `es`, at the addresses `is`.
  pub record Holding (chain : Chain T) (items : List (String × ℕ)) (fresh : ℕ) (is : List ℕ)
      (es : List (Entry T)) : Type 0 where
    pub stands : Stands chain is
    pub young : All (λ i. i < fresh) is
    pub indexed : Indexed (keys (entry_at chain)) items is
    pub shows : map (entry_at chain) is ≡ es

  abbrev pub Represents : LinkedBackend T → List ℕ → List (Entry T) → Type 0
  Represents c is es = Holding c.chain c.items c.fresh is es

  -- Writes that keep the links at the addresses of the list.
  Stands-write :
      (c : Chain T) (g : Heap T) (is : List ℕ)
      → ((i : ℕ) → has i is ≡ true → SameLinks c.heap g i)
      → Stands c is
      → Stands (record c { heap = g }) is
  Stands-write c g is same s = record {
    links = frame c.heap g none is same s.links;
    once = s.once;
    head = s.head;
    tail = s.tail;
  }

  module _ (c : LinkedBackend T) (is : List ℕ) (es : List (Entry T)) (r : Represents c is es) where
    -- A key that is in the map.
    pub found_at :
        (key : String) (i : ℕ)
        → lookup string_discrete key c.items ≡ some i
        → (has i is ≡ true)
          × ((c.chain.heap i).key ≡ key)
          × (find key es ≡ some (entry_at c.chain i))
          × (without key es ≡ map (entry_at c.chain) (erase i is))
    found_at key i h =
        let there : id_of (keys (entry_at c.chain)) key is ≡ some i =
          sym (r.indexed.keyed key) ∙ h in
        let (m, k) = id_of-has (keys (entry_at c.chain)) key is i there in
        (
          m,
          k,
          ap (find key) (sym r.shows) ∙ find-map-some (entry_at c.chain) key is i there,
          ap (without key) (sym r.shows) ∙ without-map (entry_at c.chain) key is i there,
        )

    pub missing : (key : String) → lookup string_discrete key c.items ≡ none → find key es ≡ none
    missing key h =
        ap (find key) (sym r.shows)
        ∙ find-map-none (entry_at c.chain) key is (sym (r.indexed.keyed key) ∙ h)

    pub length_shown : length c.items ≡ length es
    length_shown =
        r.indexed.size ∙ sym (length-map_entries (entry_at c.chain) is) ∙ ap length r.shows

    pub drop_node-Represents :
        (key : String) (i : ℕ)
        → lookup string_discrete key c.items ≡ some i
        → Represents (drop_node c key i) (erase i is) (without key es)
    unfolding drop_node
    drop_node-Represents key i h =
        let (m, k, f, w) = found_at key i h in
        let same = payload-remove_node c.chain i in
        record {
          stands = remove_node-Stands c.chain i is r.stands m;
          young = All-erase c.fresh i is r.young;
          indexed =
              Indexed-agree (keys (entry_at c.chain)) _ _ _ (λ j n. ap (λ p. p.0) (same j))
                (subst
                  (λ q.
                    Indexed (keys (entry_at c.chain)) (delete string_discrete q c.items)
                      (erase i is))
                  k (erase-Indexed (keys (entry_at c.chain)) c.items is r.indexed i m));
          shows = map_agree (entry_at c.chain) _ (erase i is) (λ j n. same j) ∙ sym w;
        }

    -- `moveToFront`, for a node that is not there yet.
    pub move-Represents :
        (key : String) (i : ℕ)
        → lookup string_discrete key c.items ≡ some i
        → Represents
            (record c { chain = add_to_front (remove_node c.chain i) i })
            (i ∷ erase i is)
            (entry_at c.chain i ∷ without key es)
    move-Represents key i h =
        let (m, k, f, w) = found_at key i h in
        let removed = payload-remove_node c.chain i in
        let added = payload-add_to_front (remove_node c.chain i) i in
        let same : (j : ℕ)
            → entry_at (add_to_front (remove_node c.chain i) i) j ≡ entry_at c.chain j =
          λ j. added j ∙ removed j in
        record {
          stands =
              add_to_front-Stands (remove_node c.chain i) i (erase i is)
                (remove_node-Stands c.chain i is r.stands m) (has-erase_self i is r.stands.once);
          young = (All-has c.fresh i is r.young m, All-erase c.fresh i is r.young);
          indexed =
              Indexed-agree (keys (entry_at c.chain)) _ _ _ (λ j n. ap (λ p. p.0) (same j))
                (front-Indexed (keys (entry_at c.chain)) c.items is r.indexed i m);
          shows =
              map_agree (entry_at c.chain) _ (i ∷ erase i is) (λ j n. same j)
              ∙ ap (◌∷◌ (entry_at c.chain i)) (sym w);
        }

    pub set_value-Represents :
        (key : String) (i : ℕ) (value : T) (expiration : ℕ)
        → lookup string_discrete key c.items ≡ some i
        → Represents (set_value c i value expiration) is (replace key (key, value, expiration) es)
    unfolding set_value write
    set_value-Represents key i value expiration h =
        let (m, k, f, w) = found_at key i h in
        let d : Chain T = (set_value c i value expiration).chain in
        let self : entry_at d i ≡ ((c.chain.heap i).key, value, expiration) = ground arith in
        let hit : entry_at d i ≡ (key, value, expiration) =
          self ∙ ap (λ q. (q, value, expiration)) k in
        record {
          stands = Stands-write c.chain d.heap is (λ j n. (ground arith, ground arith)) r.stands;
          young = r.young;
          indexed = Indexed-agree (keys (entry_at c.chain)) _ _ _ (λ j n. ground arith) r.indexed;
          shows =
              sym (
                replace-map (entry_at c.chain) (entry_at d) key is i (sym (r.indexed.keyed key) ∙ h)
                  r.stands.once (λ j n. ground (arith, n)))
              ∙ ap (λ p. replace key p (map (entry_at c.chain) is)) hit
              ∙ ap (replace key (key, value, expiration)) r.shows;
        }

    insert_node-Represents :
        (key : String) (value : T) (expiration : ℕ)
        → lookup string_discrete key c.items ≡ none
        → Represents
            (insert_node c key value expiration)
            (c.fresh ∷ is)
            ((key, value, expiration) ∷ es)
    unfolding insert_node write
    insert_node-Represents key value expiration h =
        let new : has c.fresh is ≡ false = young_not_fresh c.fresh is r.young in
        let d : Chain T = record c.chain {
          heap = write c.chain.heap c.fresh (record {
            key = key;
            value = value;
            expiration = expiration;
            prev = none;
            next = none;
          });
        } in
        let spared : (j : ℕ) → has j is ≡ true → d.heap j ≡ c.chain.heap j =
          λ j n. write_other c.chain.heap c.fresh j _ (other_than c.fresh j is new n) in
        let added = payload-add_to_front d c.fresh in
        let old : (j : ℕ)
            → has j is ≡ true
            → entry_at (add_to_front d c.fresh) j ≡ entry_at c.chain j =
          λ j n. added j ∙ ap payload (spared j n) in
        let written : entry_at d c.fresh ≡ (key, value, expiration) = ground arith in
        let hit : entry_at (add_to_front d c.fresh) c.fresh ≡ (key, value, expiration) =
          added c.fresh ∙ written in
        let k : keys (entry_at (add_to_front d c.fresh)) c.fresh ≡ key = ap (λ p. p.0) hit in
        record {
          stands =
              add_to_front-Stands d c.fresh is
                (Stands-write c.chain d.heap is
                  (λ j n. (ap (λ q. q.prev) (spared j n), ap (λ q. q.next) (spared j n))) r.stands)
                new;
          young = (omega arith, All-later c.fresh is r.young);
          indexed =
              subst
                (λ q.
                  Indexed (keys (entry_at (add_to_front d c.fresh)))
                    (insert string_discrete q c.fresh c.items) (c.fresh ∷ is))
                k
                (insert-Indexed (keys (entry_at (add_to_front d c.fresh))) c.items is
                  (Indexed-agree (keys (entry_at c.chain)) _ _ _ (λ j n. ap (λ p. p.0) (old j n))
                    r.indexed)
                  c.fresh (ap (λ q. lookup string_discrete q c.items) k ∙ h));
          shows =
              ap (λ x. x ∷ map (entry_at (add_to_front d c.fresh)) is) hit
              ∙ ap (◌∷◌ (key, value, expiration)) (map_agree (entry_at c.chain) _ is old ∙ r.shows);
        }

  pub set_value_entry :
      (c : LinkedBackend T) (i : ℕ) (key : String) (value : T) (expiration : ℕ)
      → (c.chain.heap i).key ≡ key
      → entry_at (set_value c i value expiration).chain i ≡ (key, value, expiration)
  unfolding set_value write
  set_value_entry c i key value expiration k =
      let self : entry_at (set_value c i value expiration).chain i
          ≡ ((c.chain.heap i).key, value, expiration) =
        ground arith in
      self ∙ ap (λ q. (q, value, expiration)) k

  -- After an eviction the last entry is gone, and a key that was missing still is.
  pub evict_oldest-Represents :
      (c : LinkedBackend T) (is : List ℕ) (es : List (Entry T))
      → Represents c is es
      → (k : String) → lookup string_discrete k c.items ≡ none
      → (js : List ℕ) × Represents (evict_oldest c) js (drop_last es)
        × (lookup string_discrete k (evict_oldest c).items ≡ none)
  unfolding evict_oldest drop_last drop_node
  evict_oldest-Represents c [] es r k h =
      let empty : Represents c [] [] = record {
        stands = r.stands;
        young = tt;
        indexed = r.indexed;
        shows = refl;
      } in
      (
        [],
        rw (r.stands.tail, evict_oldest) (subst (λ x. Represents c [] (drop_last x)) r.shows empty),
        rw (r.stands.tail, evict_oldest) h,
      )
  evict_oldest-Represents c (j ∷ js) es r k h =
      let (t, e) = last-some j js in
      let inside : has t (j ∷ js) ≡ true = last-has j js t e in
      let tail : c.chain.tail ≡ some t = r.stands.tail ∙ e in
      let key : String = (c.chain.heap t).key in
      let there : lookup string_discrete key c.items ≡ some t =
        r.indexed.keyed key
        ∙ id_of_key (keys (entry_at c.chain)) (j ∷ js) t r.indexed.unique inside in
      let same = payload-remove_node c.chain t t in
      let gone = drop_node-Represents c (j ∷ js) es r key t there in
      (
        erase t (j ∷ js),
        rw (tail, evict_oldest)
            (record {
              stands = gone.stands;
              young = gone.young;
              indexed =
                  subst
                    (λ q.
                      Indexed (keys (entry_at (remove_node c.chain t)))
                        (delete string_discrete q c.items) (erase t (j ∷ js)))
                    (sym (ap (λ p. p.0) same)) gone.indexed;
              shows =
                  map_agree (entry_at c.chain) _ (erase t (j ∷ js))
                    (λ i n. payload-remove_node c.chain t i)
                  ∙ sym (drop_last-map (entry_at c.chain) js t j e r.stands.once)
                  ∙ ap drop_last r.shows;
            }),
        rw (tail, evict_oldest) (lookup-delete-none string_discrete _ k c.items h),
      )

  pub add_node-Represents :
      (c : LinkedBackend T) (is : List ℕ) (es : List (Entry T))
      → Represents c is es
      → (key : String) (value : T) (expiration : ℕ) → lookup string_discrete key c.items ≡ none
      → (js : List ℕ) × Represents
          (add_node c key value expiration)
          js
          (push c.capacity (key, value, expiration) es)
  unfolding add_node push
  add_node-Represents c is es r key value expiration h =
      let size = length_shown c is es r in
      elim (Bool-cases (leb_ℤ c.capacity (pos (length es)))) [
        | inl full ↦
            let (js, r', h') = evict_oldest-Represents c is es r key h in
            (
              (evict_oldest c).fresh ∷ js,
              rw (size, add_node)
                  (rw full (
                    insert_node-Represents (evict_oldest c) js (drop_last es) r' key value
                      expiration h')),
            )
        | inr roomy ↦ (
          c.fresh ∷ is,
          rw (size, add_node) (rw roomy (insert_node-Represents c is es r key value expiration h)),
        )
      ]

  pub add_node_capacity :
      (c : LinkedBackend T) (key : String) (value : T) (expiration : ℕ)
      → (add_node c key value expiration).capacity ≡ c.capacity
  unfolding add_node insert_node evict_oldest
  add_node_capacity c key value expiration = ground arith
