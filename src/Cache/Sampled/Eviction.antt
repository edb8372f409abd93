-- ===== src/Cache/Sampled/Eviction.antt =====
-- The eviction loop: what it keeps, and how far it gets.
use go_libs.Common.{
  ℕ, zero, suc, ◌+◌, ◌%◌, ◌≡◌, ◌≤◌, ◌<◌, refl, sym, ap, ◌∙◌, subst, false, none, some, inl, inr,
  String, List, [], ◌∷◌, str_eq, lookup, delete, string_discrete, All, arith, Bool-cases,
  Option-cases, length, Distinct, delete-Distinct, length-delete_one, lookup-delete-none, pos,
  leb_ℤ, ◌-ℤ◌, if_pos, if_neg,
}
use text.Mathlib.TextEquality.{eq_iff}
use go_libs.Cache.Sampled.{Item, SampledCache, evict_key}
use go_libs.Cache.Sampled.Sampling.{
  no_oldest, sampled_loop, RangeOrder, find_fallback_candidate, find_sampled_candidate, stride_of,
  next_offset, evict_loop,
}
use go_libs.Cache.Sampled.Candidate.{
  Picked, Dated, IsNew, Eligible, fallback_loop-Picked, sampled_loop-Picked, fallback_loop-none,
}

module _ {T : Type 0} where
  -- The counter is the number of entries, no key stands twice, and the creation times are below the greatest int64.
  pub record Sized (c : SampledCache T) : Type 0 where
    pub size : c.size ≡ pos (length c.items)
    pub distinct : Distinct string_discrete c.items
    pub dated : All Dated c.items

  pub All-delete :
      (P : String × Item T → Type 0) (k : String) (m : List (String × Item T))
      → All P m
      → All P (delete string_discrete k m)
  unfolding delete
  All-delete P k [] a = tt
  All-delete P k ((j, w) ∷ m) (p, a) = elim (string_discrete j k) [
    | yes e ↦ rw (if_pos (string_discrete j k) e _ _) (All-delete P k m a)
    | no e ↦ rw (if_neg (string_discrete j k) e _ _) (p, All-delete P k m a)
  ]

  pub evict_key-Sized :
      (c d : SampledCache T) (k : String)
      → Sized c
      → evict_key c k ≡ some d
      → Sized d
        × (suc (length d.items) ≡ length c.items)
        × (d.capacity ≡ c.capacity)
        × (d.items ≡ delete string_discrete k c.items)
  unfolding evict_key ◌-ℤ◌
  evict_key-Sized c d k s h = elim (Option-cases (lookup string_discrete k c.items)) [
    | inl e ↦ cc (rw (evict_key, e) at h)
    | inr (item, e) ↦
        let g : record c {
          items = delete string_discrete k c.items;
          size = c.size -ℤ pos 1;
          evictions = c.evictions + 1;
        }
            ≡ d =
          cc (rw (evict_key, e) at h) in
        let shorter = length-delete_one string_discrete k item c.items s.distinct e in
        subst
          (λ x.
            Sized x
            × (suc (length x.items) ≡ length c.items)
            × (x.capacity ≡ c.capacity)
            × (x.items ≡ delete string_discrete k c.items))
          g
          (
            record {
              size = ap (λ n. n -ℤ pos 1) s.size ∙ ground (arith, shorter);
              distinct = delete-Distinct string_discrete k c.items s.distinct;
              dated = All-delete Dated k c.items s.dated;
            },
            shorter,
            refl,
            refl,
          )
  ]

  same-Sized : (c d : SampledCache T) → d.items ≡ c.items → d.size ≡ c.size → Sized c → Sized d
  same-Sized c d i z s = record {
    size = z ∙ s.size ∙ ap (λ m. pos (length m)) (sym i);
    distinct = subst (Distinct string_discrete) (sym i) s.distinct;
    dated = subst (All Dated) (sym i) s.dated;
  }

  -- Whether a key is in the map.
  abbrev pub IsIn : SampledCache T → String → Type 0
  IsIn c k = (item : Item T) × (lookup string_discrete k c.items ≡ some item)

  evict_key_found :
      (c : SampledCache T) (k : String) → IsIn c k → (d : SampledCache T) × (evict_key c k ≡ some d)
  unfolding evict_key
  evict_key_found c k (item, e) = elim (Option-cases (evict_key c k)) [
    | inl h ↦ cc (rw (evict_key, e) at h)
    | inr found ↦ found
  ]

  abbrev KeyIn : List (String × Item T) → String × Item T → Type 0
  KeyIn m e = (item : Item T) × (lookup string_discrete e.0 m ≡ some item)

  All-KeyIn-cons :
      (e : String × Item T) (m xs : List (String × Item T))
      → All (KeyIn m) xs
      → All (KeyIn (e ∷ m)) xs
  unfolding lookup
  All-KeyIn-cons e m [] a = tt
  All-KeyIn-cons e m (x ∷ xs) ((item, l), a) = (
    elim (string_discrete e.0 x.0) [
      | yes p ↦ (e.1, if_pos (string_discrete e.0 x.0) p _ _)
      | no p ↦ (item, if_neg (string_discrete e.0 x.0) p _ _ ∙ l)
    ],
    All-KeyIn-cons e m xs a,
  )

  KeyIn-All : (m : List (String × Item T)) → All (KeyIn m) m
  unfolding lookup
  KeyIn-All [] = tt
  KeyIn-All (e ∷ m) =
      ((e.1, if_pos (string_discrete e.0 e.0) refl _ _), All-KeyIn-cons e m m (KeyIn-All m))

  -- A victim is not the new key, and it is in the map.
  abbrev pub IsVictim : SampledCache T → String → String → Type 0
  IsVictim c new_key k = (str_eq k new_key ≡ false) × IsIn c k

  Eligible-All :
      (c : SampledCache T) (new_key : String) (now : ℕ) (xs : List (String × Item T))
      → All (KeyIn c.items) xs
      → All (Eligible (IsVictim c new_key) new_key now) xs
  Eligible-All c new_key now [] a = tt
  Eligible-All c new_key now (x ∷ xs) (l, a) = (
    elim (Bool-cases (str_eq x.0 new_key)) [ inl t ↦ inr t | inr f ↦ inl (f, l) ],
    Eligible-All c new_key now xs a,
  )

  -- If all keys are the new one and that is not there, the map is empty.
  IsNew-empty :
      (new_key : String) (m : List (String × Item T))
      → All (IsNew new_key) m
      → lookup string_discrete new_key m ≡ none
      → length m ≡ 0
  unfolding lookup
  IsNew-empty new_key [] a h = refl
  IsNew-empty new_key ((k, item) ∷ m) (t, a) h =
      let same : k ≡ new_key = (eq_iff k new_key).0 t in
      cc (
        sym (if_pos (string_discrete k new_key) same (some item) (lookup string_discrete new_key m))
        ∙ h)

  -- A cache with room for one more entry.
  pub record HasRoom (c d : SampledCache T) (new_key : String) (n : ℕ) : Type 0 where
    pub sized : Sized d
    pub room : length d.items ≤ n
    pub capacity : d.capacity ≡ c.capacity
    pub absent : lookup string_discrete new_key d.items ≡ none

  module _ (range : RangeOrder T) where
    candidate-Picked :
        (P : String → Type 0) (c : SampledCache T) (new_key : String) (now : ℕ)
        → All (Eligible P new_key now) (range.visits c.items)
        → Picked P (find_sampled_candidate range c new_key now).1
    unfolding find_sampled_candidate find_fallback_candidate
    candidate-Picked P c new_key now a =
        let first =
          sampled_loop-Picked P new_key now (stride_of c) (next_offset c % stride_of c)
            (range.visits c.items) 0 0 no_oldest a tt in
        elim (Option-cases (
          sampled_loop new_key now (stride_of c) (next_offset c % stride_of c)
            (range.visits c.items) 0 0 no_oldest)) [
              | inl e ↦
                  rw (e, find_sampled_candidate)
                    (fallback_loop-Picked P new_key now (range.visits c.items) 0 no_oldest a tt)
              | inr (k, e) ↦ rw (e, find_sampled_candidate) (subst (Picked P) e first)
            ]

    pub candidate-IsVictim :
        (c : SampledCache T) (new_key : String) (now : ℕ)
        → Picked (IsVictim c new_key) (find_sampled_candidate range c new_key now).1
    candidate-IsVictim c new_key now = candidate-Picked (IsVictim c new_key) c new_key now (
        (range.visited (Eligible (IsVictim c new_key) new_key now) c.items).0
          (Eligible-All c new_key now c.items (KeyIn-All c.items)))

    candidate-none :
        (c : SampledCache T) (new_key : String) (now : ℕ)
        → All Dated c.items
        → (find_sampled_candidate range c new_key now).1 ≡ none
        → All (IsNew new_key) c.items
    unfolding find_sampled_candidate find_fallback_candidate
    candidate-none c new_key now d h =
        elim (Option-cases (
          sampled_loop new_key now (stride_of c) (next_offset c % stride_of c)
            (range.visits c.items) 0 0 no_oldest)) [
              | inr (k, e) ↦ cc (rw (e, find_sampled_candidate) at h)
              | inl e ↦ (range.visited (IsNew new_key) c.items).1 (
                  fallback_loop-none new_key now (range.visits c.items) 0
                    ((range.visited Dated c.items).0 d) (rw (e, find_sampled_candidate) at h))
            ]

    -- A sample changes only the offset.
    pub candidate_same :
        (c : SampledCache T) (new_key : String) (now : ℕ)
        → let d : SampledCache T = (find_sampled_candidate range c new_key now).0 in
          (d.items ≡ c.items) × (d.size ≡ c.size) × (d.capacity ≡ c.capacity)
    unfolding find_sampled_candidate
    candidate_same c new_key now = (ground arith, ground arith, ground arith)

    pub evict_loop-HasRoom :
        (now : ℕ → ℕ) (fuel n : ℕ) (c : SampledCache T) (new_key : String)
        → Sized c
        → c.capacity ≡ pos (suc n)
        → lookup string_discrete new_key c.items ≡ none
        → length c.items < fuel
        → HasRoom c (evict_loop range now fuel c new_key) new_key n
    unfolding evict_loop
    evict_loop-HasRoom now zero n c new_key s cap a f = ground (arith, f)
    evict_loop-HasRoom now (suc fuel) n c new_key s cap a f =
        elim (Bool-cases (leb_ℤ c.capacity c.size)) [
          | inr room ↦
              rw (room, evict_loop)
                (record {
                  sized = s;
                  room = ground (arith, room, cap, s.size);
                  capacity = refl;
                  absent = a;
                })
          | inl full ↦
              let (items, size, capacity) = candidate_same c new_key (now fuel) in
              let d : SampledCache T = (find_sampled_candidate range c new_key (now fuel)).0 in
              elim (Option-cases (find_sampled_candidate range c new_key (now fuel)).1) [
                | inl e ↦
                    let empty =
                      IsNew-empty new_key c.items (candidate-none c new_key (now fuel) s.dated e)
                        a in
                    rw (full, e, evict_loop)
                      (record {
                        sized = same-Sized c d items size s;
                        room = omega (arith, ap length items, empty);
                        capacity = capacity;
                        absent = ap (lookup string_discrete new_key) items ∙ a;
                      })
                | inr (k, e) ↦
                    let victim : IsVictim c new_key k =
                      subst (Picked (IsVictim c new_key)) e
                        (candidate-IsVictim c new_key (now fuel)) in
                    let there : lookup string_discrete k d.items ≡ some victim.1.0 =
                      ap (lookup string_discrete k) items ∙ victim.1.1 in
                    let (x, gone) = evict_key_found d k (victim.1.0, there) in
                    let (sized, shorter, cap', left) =
                      evict_key-Sized d x k (same-Sized c d items size s) gone in
                    let absent : lookup string_discrete new_key x.items ≡ none =
                      ap (lookup string_discrete new_key) left
                      ∙ lookup-delete-none string_discrete k new_key d.items
                          (ap (lookup string_discrete new_key) items ∙ a) in
                    let r =
                      evict_loop-HasRoom now fuel n x new_key sized (cap' ∙ capacity ∙ cap) absent
                        (omega (arith, f, shorter, ap length items)) in
                    rw (full, e, evict_loop)
                      (rw gone (record {
                        sized = r.sized;
                        room = r.room;
                        capacity = r.capacity ∙ cap' ∙ capacity;
                        absent = r.absent;
                      }))
              ]
        ]
