-- ===== src/Cache/Answers.antt =====
-- What callers of the LRU and the FIFO cache can rely on, after any calls.
use go_libs.Common.{
  ℕ, suc, ◌≤◌, ◌≡◌, refl, sym, subst, ap, ◌∙◌, false, Option, none, some, inl, inr, String, List,
  [], ◌∷◌, if_pos, ℤ, pos, default_ℤ, arith, string_discrete, length, Option-cases,
}
use go_libs.Cache.Linked.{LinkedBackend, new_backend, expiry, is_expired, len_of}
use go_libs.Cache.Linked.Represents.{length_shown}
use go_libs.Cache.Linked.Traces.{
  RepresentsSome, Op, run_ops, spec_ops, spec_op, run_ops_answers, run_ops-Represents,
  new_backend-Represents, get_item, set_item, delete_item, count_items,
}
use go_libs.Cache.Policy.{Entry, find, without, replace, drop_last, push, lru_get, lru_set}
use go_libs.Cache.Lru.Refines.{lru}
use go_libs.Cache.Fifo.Refines.{fifo}
use go_libs.Cache.Fetch.{Flight, get_or_fetch, fetch_through}

module _ {T : Type 0} (blank : T) where
  -- A new LRU cache answers any sequence of `Get`, `Set`, `Delete` and `Len` as a list of entries does on
  -- which a hit or an update moves the entry to the front, and an insertion into a full cache
  -- drops the last one.
  pub lru_answers :
      (capacity : ℤ) (os : List (Op T))
      → (run_ops lru (new_backend blank capacity) os).1
        ≡ (spec_ops lru (default_ℤ capacity (pos 128)) [] os).1
  lru_answers capacity os = run_ops_answers lru blank capacity os

  -- A new FIFO cache answers any sequence of `Get`, `Set`, `Delete` and `Len` as a list of entries does on
  -- which a hit or an update leaves the entry in its place, and an insertion into a full cache
  -- drops the last one.
  pub fifo_answers :
      (capacity : ℤ) (os : List (Op T))
      → (run_ops fifo (new_backend blank capacity) os).1
        ≡ (spec_ops fifo (default_ℤ capacity (pos 128)) [] os).1
  fifo_answers capacity os = run_ops_answers fifo blank capacity os

module _ {T : Type 0} where
  length-without : (k : String) (es : List (Entry T)) → length (without k es) ≤ length es
  unfolding without
  length-without k [] = omega arith
  length-without k (e ∷ es) = ground (arith, length-without k es)

  length-without_found :
      (k : String) (es : List (Entry T)) (e : Entry T)
      → find k es ≡ some e
      → suc (length (without k es)) ≤ length es
  unfolding without find
  length-without_found k [] e h = cc
  length-without_found k (x ∷ es) e h = ground (arith, length-without_found k es e)

  length-replace :
      (k : String) (x : Entry T) (es : List (Entry T)) → length (replace k x es) ≡ length es
  unfolding replace
  length-replace k x [] = refl
  length-replace k x (e ∷ es) = ground (arith, length-replace k x es)

  length-drop_last : (e : Entry T) (es : List (Entry T)) → length (drop_last (e ∷ es)) ≡ length es
  unfolding drop_last
  length-drop_last e [] = refl
  length-drop_last e (x ∷ es) = ap suc (length-drop_last x es)

  length-push :
      (n : ℕ) (x : Entry T) (es : List (Entry T))
      → length es ≤ suc n
      → length (push (pos (suc n)) x es) ≤ suc n
  unfolding push
  length-push n x [] h = ground arith
  length-push n x (e ∷ es) h = ground (arith, length-drop_last e es)

  get-le :
      (n : ℕ) (k : String) (now : ℕ) (es : List (Entry T))
      → length es ≤ n
      → length (lru_get k now es).0 ≤ n
  unfolding lru_get
  get-le n k now es h = elim (Option-cases (find k es)) [
    | inl miss ↦ rw (miss, lru_get) h
    | inr (e, there) ↦
        rw (there, lru_get) (ground (arith, length-without k es, length-without_found k es e there))
  ]

  set-le :
      (n : ℕ) (k : String) (v : T) (t : ℕ) (es : List (Entry T))
      → length es ≤ suc n
      → length (lru_set (pos (suc n)) k v t es) ≤ suc n
  unfolding lru_set
  set-le n k v t es h = elim (Option-cases (find k es)) [
    | inl miss ↦ rw (miss, lru_set) (length-push n (k, v, t) es h)
    | inr (e, there) ↦ rw (there, lru_set) (omega (arith, h, length-without_found k es e there))
  ]

  spec_ops-le :
      (n : ℕ) (es : List (Entry T)) (os : List (Op T))
      → length es ≤ suc n
      → length (spec_ops lru (pos (suc n)) es os).0 ≤ suc n
  unfolding spec_ops spec_op
  spec_ops-le n es [] h = h
  spec_ops-le n es (get_item k now ∷ os) h =
      spec_ops-le n (lru_get k now es).0 os (get-le (suc n) k now es h)
  spec_ops-le n es (set_item k v ttl now ∷ os) h =
      spec_ops-le n (lru_set (pos (suc n)) k v (expiry ttl now) es) os
        (set-le n k v (expiry ttl now) es h)
  spec_ops-le n es (delete_item k ∷ os) h =
      spec_ops-le n (without k es) os (omega (arith, h, length-without k es))
  spec_ops-le n es (count_items ∷ os) h = spec_ops-le n es os h

  -- However it is called, an LRU cache with a positive capacity never holds more entries than that.
  lru_len_bounded :
      (blank : T) (n : ℕ) (os : List (Op T))
      → len_of (run_ops lru (new_backend blank (pos (suc n))) os).0 ≤ suc n
  unfolding len_of new_backend
  lru_len_bounded blank n os =
      let x =
        run_ops-Represents lru (new_backend blank (pos (suc n))) [] os
          (new_backend-Represents lru blank (pos (suc n))) in
      let shown : length (run_ops lru (new_backend blank (pos (suc n))) os).0.items
          ≡ length (spec_ops lru (default_ℤ (pos (suc n)) (pos 128)) [] os).0 =
        length_shown (run_ops lru (new_backend blank (pos (suc n))) os).0 x.0.0 _ x.0.1 in
      let cap : default_ℤ (pos (suc n)) (pos 128) ≡ pos (suc n) = ground arith in
      let bound : length (spec_ops lru (default_ℤ (pos (suc n)) (pos 128)) [] os).0 ≤ suc n =
        subst (λ m. length (spec_ops lru m [] os).0 ≤ suc n) (sym cap)
          (spec_ops-le n [] os (omega arith)) in
      subst (λ m. m ≤ suc n) (sym shown) bound

  pub found_set :
      (capacity : ℤ) (k : String) (v : T) (t : ℕ) (es : List (Entry T))
      → find k (lru_set capacity k v t es) ≡ some (k, v, t)
  unfolding lru_set push find
  found_set capacity k v t es = elim (Option-cases (find k es)) [
    | inl miss ↦ rw (miss, lru_set) (if_pos (string_discrete k k) refl _ _)
    | inr (e, there) ↦ rw (there, lru_set) (if_pos (string_discrete k k) refl _ _)
  ]

  pub get_found :
      (k : String) (now : ℕ) (es : List (Entry T)) (v : T) (t : ℕ)
      → find k es ≡ some (k, v, t)
      → is_expired t now ≡ false
      → (lru_get k now es).1 ≡ some v
  unfolding lru_get
  get_found k now es v t there live = rw (there, lru_get) (rw live refl)

  set_then_get :
      (c : LinkedBackend T) (es : List (Entry T)) (k : String) (v : T) (ttl : Option ℤ) (t now : ℕ)
      → RepresentsSome c es
      → is_expired (expiry ttl t) now ≡ false
      → (lru.get (lru.set c k v ttl t) k now).1 ≡ some v
  set_then_get c es k v ttl t now r live =
      let (r', cap) = lru.set_right c es k v ttl t r in
      let (r'', a, cap') = lru.get_right _ _ k now r' in
      a ∙ get_found k now _ v (expiry ttl t) (found_set c.capacity k v (expiry ttl t) es) live

  -- In an LRU cache, after any calls: if a `GetOrFetch` misses and its function returns a value, then a
  -- `GetOrFetch` of the key before the entry expires, by a caller whose context is live, returns that value
  -- and does not call its function.
  fetched_once :
      {E : Type 0} (blank : T) (capacity : ℤ) (os : List (Op T)) (k : String) (ttl : ℤ) (v : T)
      (w w' : Flight T E)
      → w.ctx_err ≡ none
      → (lru.get (run_ops lru (new_backend blank capacity) os).0 k w.looked_up).1 ≡ none
      → w.returned ≡ inl v
      → w'.ctx_err ≡ none
      → is_expired (expiry (some ttl) w.stored) w'.looked_up ≡ false
      → let c : LinkedBackend T = (run_ops lru (new_backend blank capacity) os).0 in
        let answer = get_or_fetch lru (get_or_fetch lru c k ttl w).0 k ttl w' in
        (answer.1 ≡ inl v) × (answer.2 ≡ false)
  unfolding fetch_through
  fetched_once blank capacity os k ttl v w w' live miss ret live' fresh =
      let c : LinkedBackend T = (run_ops lru (new_backend blank capacity) os).0 in
      let d : LinkedBackend T = (lru.get c k w.looked_up).0 in
      let (r, a) =
        run_ops-Represents lru (new_backend blank capacity) [] os
          (new_backend-Represents lru blank capacity) in
      let (r', b, cap) = lru.get_right c _ k w.looked_up r in
      let stored : (get_or_fetch lru c k ttl w).0 ≡ lru.set d k v (some ttl) w.stored =
        rw (live, fetch_through) (rw miss (rw ret refl)) in
      let hit = set_then_get d _ k v (some ttl) w.stored w'.looked_up r' fresh in
      rw stored (rw (live', fetch_through) (rw hit (refl, refl)))
