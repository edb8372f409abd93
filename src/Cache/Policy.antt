-- ===== src/Cache/Policy.antt =====
-- What the LRU and the FIFO cache promise, on a list of entries with the newest first. It says nothing of
-- links, addresses or maps.
use go_libs.Common.{
  ℕ, ◌≡◌, ◌≢◌, ◌∙◌, sym, if_pos, if_neg, refl, ap, true, false, ◌==◌, Option, none, some, String,
  List, [], ◌∷◌, if◌then◌else◌, ite, arith, ℤ, pos, leb_ℤ, string_discrete, length, map,
}
use go_libs.Cache.Chain.Links.{has, Once, last, erase}
use go_libs.Cache.Linked.{is_expired}
use go_libs.Cache.Linked.Index.{id_of, id_of-has}

-- A key, its value and its expiration.
abbrev pub Entry : Type 0 → Type 0
Entry T = String × T × ℕ

apart : (i j : ℕ) → i ≢ j → (i == j) ≡ false
apart i j ne = ground arith

pub last-has : (k : ℕ) (is : List ℕ) (i : ℕ) → last (some k) is ≡ some i → has i (k ∷ is) ≡ true
last-has k [] i h = ground arith
last-has k (j ∷ is) i h = ground (arith, last-has j is i h)

module _ {T : Type 0} where
  unfoldable pub find : String → List (Entry T) → Option (Entry T)
  find k [] = none
  find k (e ∷ es) = ite (string_discrete e.0 k) (some e) (find k es)

  unfoldable pub without : String → List (Entry T) → List (Entry T)
  without k [] = []
  without k (e ∷ es) = ite (string_discrete e.0 k) es (e ∷ without k es)

  unfoldable pub replace : String → Entry T → List (Entry T) → List (Entry T)
  replace k e' [] = []
  replace k e' (e ∷ es) = ite (string_discrete e.0 k) (e' ∷ es) (e ∷ replace k e' es)

  unfoldable pub drop_last : List (Entry T) → List (Entry T)
  drop_last [] = []
  drop_last (e ∷ []) = []
  drop_last (e ∷ e' ∷ es) = e ∷ drop_last (e' ∷ es)

  -- `Get` of an LRU cache: the entries, and the value.
  unfoldable pub lru_get : String → ℕ → List (Entry T) → List (Entry T) × Option T
  lru_get k now es = elim (find k es) [
    | none ↦ (es, none)
    | some e ↦ if is_expired e.2 now then (without k es, none) else (e ∷ without k es, some e.1)
  ]

  -- A new entry in front; the last one goes if the cache is full.
  unfoldable pub push : ℤ → Entry T → List (Entry T) → List (Entry T)
  push capacity e es = e ∷ (if leb_ℤ capacity (pos (length es)) then drop_last es else es)

  unfoldable pub lru_set : ℤ → String → T → ℕ → List (Entry T) → List (Entry T)
  lru_set capacity k v expiration es = elim (find k es) [
    | none ↦ push capacity (k, v, expiration) es
    | some e ↦ (k, v, expiration) ∷ without k es
  ]

  unfoldable pub fifo_get : String → ℕ → List (Entry T) → List (Entry T) × Option T
  fifo_get k now es = elim (find k es) [
    | none ↦ (es, none)
    | some e ↦ if is_expired e.2 now then (without k es, none) else (es, some e.1)
  ]

  unfoldable pub fifo_set : ℤ → String → T → ℕ → List (Entry T) → List (Entry T)
  fifo_set capacity k v expiration es = elim (find k es) [
    | none ↦ push capacity (k, v, expiration) es
    | some e ↦ replace k (k, v, expiration) es
  ]

  pub without_missing : (k : String) (es : List (Entry T)) → find k es ≡ none → without k es ≡ es
  unfolding find without
  without_missing k [] h = refl
  without_missing k (e ∷ es) h = ground (arith, without_missing k es)

  pub without-replace :
      (k : String) (e : Entry T) (es : List (Entry T))
      → e.0 ≡ k
      → without k (replace k e es) ≡ without k es
  unfolding replace without
  without-replace k e [] h = refl
  without-replace k e (e' ∷ es) h = ground (arith, without-replace k e es h)

  module _ (e : ℕ → Entry T) where
    abbrev pub keys : ℕ → String
    keys i = (e i).0

    pub find-map-none :
        (k : String) (is : List ℕ) → id_of keys k is ≡ none → find k (map e is) ≡ none
    unfolding find id_of
    find-map-none k [] h = refl
    find-map-none k (j ∷ is) h = ground (arith, find-map-none k is)

    pub find-map-some :
        (k : String) (is : List ℕ) (i : ℕ)
        → id_of keys k is ≡ some i
        → find k (map e is) ≡ some (e i)
    unfolding find id_of
    find-map-some k [] i h = cc
    find-map-some k (j ∷ is) i h = ground (arith, find-map-some k is i)

    pub without-map :
        (k : String) (is : List ℕ) (i : ℕ)
        → id_of keys k is ≡ some i
        → without k (map e is) ≡ map e (erase i is)
    unfolding without id_of
    without-map k [] i h = cc
    without-map k (j ∷ is) i h = elim (string_discrete (keys j) k) [
      | yes p ↦
          let same : j ≡ i = ground (arith, h) in
          let hit : (j == i) ≡ true = ground arith in
          rw (if_pos (string_discrete (keys j) k) p, hit) refl
      | no p ↦
          let there : id_of keys k is ≡ some i = ground (arith, h) in
          let (m, q) = id_of-has keys k is i there in
          let miss : (j == i) ≡ false = apart j i λ w. p (ap keys w ∙ q) in
          rw (if_neg (string_discrete (keys j) k) p, miss)
            (ap (◌∷◌ (e j)) (without-map k is i there))
    ]

    pub drop_last-map :
        (is : List ℕ) (i j : ℕ)
        → last none (j ∷ is) ≡ some i
        → Once (j ∷ is)
        → drop_last (map e (j ∷ is)) ≡ map e (erase i (j ∷ is))
    unfolding drop_last
    drop_last-map [] i j h o =
        let same : j ≡ i = ground (arith, h) in
        let hit : (j == i) ≡ true = ground arith in rw hit refl
    drop_last-map (k ∷ is) i j h o =
        let inside : has i (k ∷ is) ≡ true = last-has k is i h in
        let miss : (j == i) ≡ false = ground (arith, o.0) in
        rw miss (ap (◌∷◌ (e j)) (drop_last-map is i k h o.1))

  pub map_agree :
      (e e' : ℕ → Entry T) (is : List ℕ)
      → ((i : ℕ) → has i is ≡ true → e' i ≡ e i)
      → map e' is ≡ map e is
  map_agree e e' [] a = refl
  map_agree e e' (i ∷ is) a =
      rw (a i (ground arith), map_agree e e' is (λ j m. a j (ground (arith, m)))) refl

  -- An entry changes, and keeps its key.
  pub replace-map :
      (e e' : ℕ → Entry T) (k : String) (is : List ℕ) (i : ℕ)
      → id_of (keys e) k is ≡ some i
      → Once is
      → ((j : ℕ) → (i == j) ≡ false → e' j ≡ e j)
      → replace k (e' i) (map e is) ≡ map e' is
  unfolding replace id_of
  replace-map e e' k [] i h o a = cc
  replace-map e e' k (j ∷ is) i h o a = elim (string_discrete (keys e j) k) [
    | yes p ↦
        let same : j ≡ i = ground (arith, h) in
        let rest : map e' is ≡ map e is = map_agree e e' is (λ n m. a n (ground (arith, m, o.0))) in
        rw (if_pos (string_discrete (keys e j) k) p, rest, same) refl
    | no p ↦
        let there : id_of (keys e) k is ≡ some i = ground (arith, h) in
        let (m, q) = id_of-has (keys e) k is i there in
        let miss : (i == j) ≡ false = apart i j λ w. p (ap (keys e) (sym w) ∙ q) in
        rw (if_neg (string_discrete (keys e j) k) p, a j miss)
          (ap (◌∷◌ (e j)) (replace-map e e' k is i there o.1 a))
  ]
