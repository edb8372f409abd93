-- ===== src/Cache/Linked/Traces.antt =====
-- Any sequence of calls of a linked backend, against the policy on lists of entries. `Backed` is what the
-- LRU and the FIFO backend have to show for their own `Get` and `Set`.
use go_libs.Common.{
  ℕ, ◌≡◌, refl, subst, ap, Option, String, List, [], ◌∷◌, ℤ, pos, default_ℤ, arith, lookup,
  string_discrete, length, inl, inr, Option-cases,
}
use go_libs.Cache.Linked.{LinkedBackend, new_backend, expiry, delete_key, drop_node, len_of}
use go_libs.Cache.Linked.Index.{id_of}
use go_libs.Cache.Linked.Represents.{Represents, drop_node-Represents, length_shown, missing}
use go_libs.Cache.Policy.{Entry, without, without_missing}

pub data Op (T : Type 0) : Type 0 where
  get_item : String → ℕ → Op T
  set_item : String → T → Option ℤ → ℕ → Op T
  delete_item : String → Op T
  count_items : Op T

pub data Answer (T : Type 0) : Type 0 where
  got : Option T → Answer T
  counted : ℕ → Answer T
  quiet : Answer T

abbrev pub RepresentsSome : {T : Type 0} → LinkedBackend T → List (Entry T) → Type 0
RepresentsSome c es = (is : List ℕ) × Represents c is es

pub record Backed (T : Type 0) : Type 0 where
  pub get : LinkedBackend T → String → ℕ → LinkedBackend T × Option T
  pub set : LinkedBackend T → String → T → Option ℤ → ℕ → LinkedBackend T
  pub spec_get : String → ℕ → List (Entry T) → List (Entry T) × Option T
  pub spec_set : ℤ → String → T → ℕ → List (Entry T) → List (Entry T)
  pub get_right :
      (c : LinkedBackend T) (es : List (Entry T)) (k : String) (now : ℕ)
      → RepresentsSome c es
      → RepresentsSome (get c k now).0 (spec_get k now es).0
        × ((get c k now).1 ≡ (spec_get k now es).1)
        × ((get c k now).0.capacity ≡ c.capacity)
  pub set_right :
      (c : LinkedBackend T) (es : List (Entry T)) (k : String) (v : T) (ttl : Option ℤ) (now : ℕ)
      → RepresentsSome c es
      → RepresentsSome (set c k v ttl now) (spec_set c.capacity k v (expiry ttl now) es)
        × ((set c k v ttl now).capacity ≡ c.capacity)

module _ {T : Type 0} where
  module _ (b : Backed T) where
    unfoldable pub run_op : LinkedBackend T → Op T → LinkedBackend T × Answer T
    run_op c (get_item k now) = let (c', v) = b.get c k now in (c', got v)
    run_op c (set_item k v ttl now) = (b.set c k v ttl now, quiet)
    run_op c (delete_item k) = (delete_key c k, quiet)
    run_op c count_items = (c, counted (len_of c))

    unfoldable pub run_ops : LinkedBackend T → List (Op T) → LinkedBackend T × List (Answer T)
    run_ops c [] = (c, [])
    run_ops c (o ∷ os) =
        let (c', a) = run_op c o in let (c'', rest) = run_ops c' os in (c'', a ∷ rest)

    -- The same calls on a list of entries.
    unfoldable pub spec_op : ℤ → List (Entry T) → Op T → List (Entry T) × Answer T
    spec_op capacity es (get_item k now) = let (es', v) = b.spec_get k now es in (es', got v)
    spec_op capacity es (set_item k v ttl now) =
        (b.spec_set capacity k v (expiry ttl now) es, quiet)
    spec_op capacity es (delete_item k) = (without k es, quiet)
    spec_op capacity es count_items = (es, counted (length es))

    unfoldable pub spec_ops : ℤ → List (Entry T) → List (Op T) → List (Entry T) × List (Answer T)
    spec_ops capacity es [] = (es, [])
    spec_ops capacity es (o ∷ os) =
        let (es', a) = spec_op capacity es o in
        let (es'', rest) = spec_ops capacity es' os in (es'', a ∷ rest)

    pub new_backend-Represents :
        (blank : T) (capacity : ℤ) → RepresentsSome (new_backend blank capacity) []
    unfolding new_backend lookup id_of
    new_backend-Represents blank capacity = (
      [],
      record {
        stands = record { links = tt; once = tt; head = refl; tail = refl };
        young = tt;
        indexed = record { keyed = λ k. refl; unique = tt; size = refl; distinct = tt };
        shows = refl;
      },
    )

    pub delete_right :
        (c : LinkedBackend T) (es : List (Entry T)) (k : String)
        → RepresentsSome c es
        → RepresentsSome (delete_key c k) (without k es)
    unfolding delete_key
    delete_right c es k (is, r) = elim (Option-cases (lookup string_discrete k c.items)) [
      | inl miss ↦
          let same : without k es ≡ es = without_missing k es (missing c is es r k miss) in
          rw (miss, delete_key) (rw same (is, r))
      | inr (i, there) ↦ rw (there, delete_key) (_, drop_node-Represents c is es r k i there)
    ]

    run_op-Represents :
        (c : LinkedBackend T) (es : List (Entry T)) (o : Op T)
        → RepresentsSome c es
        → RepresentsSome (run_op c o).0 (spec_op c.capacity es o).0
          × ((run_op c o).1 ≡ (spec_op c.capacity es o).1)
          × ((run_op c o).0.capacity ≡ c.capacity)
    unfolding run_op spec_op delete_key drop_node len_of
    run_op-Represents c es (get_item k now) x =
        let (r, v, cap) = b.get_right c es k now x in (r, ap got v, cap)
    run_op-Represents c es (set_item k v ttl now) x =
        let (r, cap) = b.set_right c es k v ttl now x in (r, refl, cap)
    run_op-Represents c es (delete_item k) x = (delete_right c es k x, refl, ground arith)
    run_op-Represents c es count_items (is, r) =
        ((is, r), ap counted (length_shown c is es r), refl)

    pub run_ops-Represents :
        (c : LinkedBackend T) (es : List (Entry T)) (os : List (Op T))
        → RepresentsSome c es
        → RepresentsSome (run_ops c os).0 (spec_ops c.capacity es os).0
          × ((run_ops c os).1 ≡ (spec_ops c.capacity es os).1)
    unfolding run_ops spec_ops
    run_ops-Represents c es [] x = (x, refl)
    run_ops-Represents c es (o ∷ os) x =
        let (r, a, cap) = run_op-Represents c es o x in
        let (r', as') = run_ops-Represents (run_op c o).0 (spec_op c.capacity es o).0 os r in
        (
          subst
              (λ n.
                RepresentsSome (run_ops (run_op c o).0 os).0
                  (spec_ops n (spec_op c.capacity es o).0 os).0)
              cap r',
          rw a (
              ap (λ rest. (spec_op c.capacity es o).1 ∷ rest)
                (subst
                  (λ n.
                    (run_ops (run_op c o).0 os).1 ≡ (spec_ops n (spec_op c.capacity es o).0 os).1)
                  cap as')),
        )

    -- A new backend answers every sequence of calls as the policy does on a list of entries, from the
    -- empty list on.
    pub run_ops_answers :
        (blank : T) (capacity : ℤ) (os : List (Op T))
        → (run_ops (new_backend blank capacity) os).1
          ≡ (spec_ops (default_ℤ capacity (pos 128)) [] os).1
    unfolding new_backend
    run_ops_answers blank capacity os =
        (run_ops-Represents (new_backend blank capacity) [] os
          (new_backend-Represents blank capacity)).1
