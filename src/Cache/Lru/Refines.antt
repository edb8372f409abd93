-- ===== src/Cache/Lru/Refines.antt =====
-- The LRU backend against its policy.
use go_libs.Common.{
  ℕ, ◌≡◌, refl, sym, ap, ◌∙◌, subst, true, ◌==◌, Option, some, String, List, [], ◌∷◌, ℤ, lookup,
  string_discrete, arith, inl, inr, Bool-cases, Option-cases,
}
use go_libs.Cache.Chain.{remove_node, payload-add_to_front, payload-remove_node}
use go_libs.Cache.Chain.Links.{is_at, first, erase}
use go_libs.Cache.Linked.{LinkedBackend, expiry, is_expired, expire_node, drop_node, set_value}
use go_libs.Cache.Linked.Represents.{
  Represents, entry_at, found_at, missing, move-Represents, drop_node-Represents,
  set_value-Represents, set_value_entry, add_node-Represents, add_node_capacity,
}
use go_libs.Cache.Linked.Traces.{Backed, RepresentsSome}
use go_libs.Cache.Policy.{Entry, without, replace, lru_get, lru_set, without-replace}
use go_libs.Cache.Lru.{move_to_front, get, set}

module _ {T : Type 0} where
  already_front :
      (c : LinkedBackend T) (is : List ℕ) (es : List (Entry T))
      → Represents c is es
      → (k : String) (i : ℕ) → lookup string_discrete k c.items ≡ some i
      → is_at c.chain.head i ≡ true
      → es ≡ (entry_at c.chain i ∷ without k es)
  already_front c [] es r k i there e = absurd (cc (sym (ap (λ o. is_at o i) r.stands.head) ∙ e))
  already_front c (j ∷ js) es r k i there e =
      let here : (j == i) ≡ true = sym (ap (λ o. is_at o i) r.stands.head) ∙ e in
      let same : j ≡ i = ground (arith, here) in
      let (m, q, f, w) = found_at c (j ∷ js) es r k i there in sym r.shows ∙ rw (w, here, same) refl

  -- `moveToFront` brings the entry of the key to the front.
  move_to_front-Represents :
      (c : LinkedBackend T) (is : List ℕ) (es : List (Entry T))
      → Represents c is es
      → (k : String) (i : ℕ) → lookup string_discrete k c.items ≡ some i
      → RepresentsSome (move_to_front c i) (entry_at c.chain i ∷ without k es)
        × (entry_at (move_to_front c i).chain i ≡ entry_at c.chain i)
        × ((move_to_front c i).capacity ≡ c.capacity)
  unfolding move_to_front
  move_to_front-Represents c is es r k i there = elim (Bool-cases (is_at c.chain.head i)) [
    | inl first ↦
        rw (first, move_to_front)
          (
            (is, subst (λ x. Represents c is x) (already_front c is es r k i there first) r),
            refl,
            refl,
          )
    | inr later ↦
        rw (later, move_to_front)
          (
            (i ∷ erase i is, move-Represents c is es r k i there),
            payload-add_to_front (remove_node c.chain i) i i ∙ payload-remove_node c.chain i i,
            refl,
          )
  ]

  pub get_right :
      (c : LinkedBackend T) (es : List (Entry T)) (k : String) (now : ℕ)
      → RepresentsSome c es
      → RepresentsSome (get c k now).0 (lru_get k now es).0
        × ((get c k now).1 ≡ (lru_get k now es).1)
        × ((get c k now).0.capacity ≡ c.capacity)
  unfolding get lru_get expire_node drop_node
  get_right c es k now (is, r) = elim (Option-cases (lookup string_discrete k c.items)) [
    | inl miss ↦ rw (miss, get, lru_get, missing c is es r k miss) ((is, r), refl, refl)
    | inr (i, there) ↦
        let (m, q, f, w) = found_at c is es r k i there in
        elim (Bool-cases (is_expired (c.chain.heap i).expiration now)) [
          | inl late ↦
              let gone = drop_node-Represents c is es r k i there in
              rw (there, get, lru_get, f) (rw late ((erase i is, gone), refl, refl))
          | inr live ↦
              let (x, same, cap) = move_to_front-Represents c is es r k i there in
              rw (there, get, lru_get, f) (rw live (x, ap (λ p. some p.1) same, cap))
        ]
  ]

  pub set_right :
      (c : LinkedBackend T) (es : List (Entry T)) (k : String) (v : T) (ttl : Option ℤ) (now : ℕ)
      → RepresentsSome c es
      → RepresentsSome (set c k v ttl now) (lru_set c.capacity k v (expiry ttl now) es)
        × ((set c k v ttl now).capacity ≡ c.capacity)
  unfolding set lru_set set_value
  set_right c es k v ttl now (is, r) = elim (Option-cases (lookup string_discrete k c.items)) [
    | inl miss ↦
        rw (miss, set, lru_set, missing c is es r k miss)
          (
            add_node-Represents c is es r k v (expiry ttl now) miss,
            add_node_capacity c k v (expiry ttl now),
          )
    | inr (i, there) ↦
        let (m, q, f, w) = found_at c is es r k i there in
        let d = set_value c i v (expiry ttl now) in
        let r' = set_value-Represents c is es r k i v (expiry ttl now) there in
        let (x, same, cap) = move_to_front-Represents d is _ r' k i there in
        let kept : without k (replace k (k, v, expiry ttl now) es) ≡ without k es =
          without-replace k (k, v, expiry ttl now) es refl in
        let (m', q', f', w') = found_at d is _ r' k i there in
        rw (there, set, lru_set, f)
          (
            subst (λ y. RepresentsSome (move_to_front d i) y)
                (ap (λ y. entry_at d.chain i ∷ y) kept
                  ∙ ap (λ y. y ∷ without k es) (set_value_entry c i k v (expiry ttl now) q))
                x,
            cap,
          )
  ]

  abbrev pub lru : Backed T
  lru = record {
    get = get;
    set = set;
    spec_get = lru_get;
    spec_set = lru_set;
    get_right = get_right;
    set_right = set_right;
  }
