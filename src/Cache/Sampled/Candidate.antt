-- ===== src/Cache/Sampled/Candidate.antt =====
-- The victim that a sample yields.
use go_libs.Common.{
  ℕ, suc, ◌≡◌, ◌<◌, refl, sym, ◌∙◌, true, false, Option, none, some, ◌⊎◌, inl, inr, String, List,
  [], ◌∷◌, str_eq, ltb, leb, All, arith, Bool-cases,
}
use go_libs.Cache.Linked.{is_expired}
use go_libs.Cache.Sampled.{Item}
use go_libs.Cache.Sampled.Sampling.{
  Oldest, no_oldest, no_time, sample_size, older, is_sampled, fallback_loop, sampled_loop,
}

-- If a key is picked, it has `P`.
abbrev pub Picked : (String → Type 0) → Option String → Type 0
Picked P none = Unit
Picked P (some k) = P k

abbrev Found : Option String → Type 0
Found o = (k : String) × (o ≡ some k)

module _ {T : Type 0} where
  abbrev pub Dated : String × Item T → Type 0
  Dated e = e.1.created_at < no_time

  abbrev pub IsNew : String → String × Item T → Type 0
  IsNew new_key e = str_eq e.0 new_key ≡ true

  module _ (P : String → Type 0) (new_key : String) (now : ℕ) where
    -- An entry that may be the victim is of a key with `P`.
    abbrev pub Eligible : String × Item T → Type 0
    Eligible e = P e.0 ⊎ (str_eq e.0 new_key ≡ true)

    older-Picked :
        (best : Oldest) (k : String) (item : Item T)
        → Picked P best.key
        → P k
        → Picked P (older best k item).key
    unfolding older
    older-Picked best k item b p = elim (Bool-cases (ltb item.created_at best.time)) [
      | inl e ↦ rw e p
      | inr e ↦ rw e b
    ]

    eligible_other : (e : String × Item T) → Eligible e → str_eq e.0 new_key ≡ false → P e.0
    eligible_other e (inl p) f = p
    eligible_other e (inr t) f = cc (t, f)

    pub fallback_loop-Picked :
        (m : List (String × Item T)) (s : ℕ) (best : Oldest)
        → All Eligible m
        → Picked P best.key
        → Picked P (fallback_loop new_key now m s best)
    unfolding fallback_loop
    fallback_loop-Picked [] s best a b = b
    fallback_loop-Picked ((k, item) ∷ m) s best (e, a) b = elim (Bool-cases (str_eq k new_key)) [
      | inl t ↦ rw (t, fallback_loop) (fallback_loop-Picked m s best a b)
      | inr f ↦
          let p = eligible_other (k, item) e f in
          elim (Bool-cases (is_expired item.expiration now)) [
            | inl t ↦ rw (f, fallback_loop) (rw t p)
            | inr g ↦ elim (Bool-cases (ltb (suc s) sample_size)) [
              | inl t ↦
                  rw (f, fallback_loop)
                    (rw g (
                      rw t (
                        fallback_loop-Picked m (suc s) (older best k item) a
                          (older-Picked best k item b p))))
              | inr h ↦ rw (f, fallback_loop) (rw g (rw h (older-Picked best k item b p)))
            ]
          ]
    ]

    pub sampled_loop-Picked :
        (stride offset : ℕ) (m : List (String × Item T)) (i s : ℕ) (best : Oldest)
        → All Eligible m
        → Picked P best.key
        → Picked P (sampled_loop new_key now stride offset m i s best)
    unfolding sampled_loop
    sampled_loop-Picked stride offset [] i s best a b = b
    sampled_loop-Picked stride offset ((k, item) ∷ m) i s best (e, a) b =
        elim (Bool-cases (str_eq k new_key)) [
          | inl t ↦ rw (t, sampled_loop) (sampled_loop-Picked stride offset m i s best a b)
          | inr f ↦
              let p = eligible_other (k, item) e f in
              elim (Bool-cases (is_sampled stride offset i)) [
                | inr u ↦
                    rw (f, sampled_loop)
                      (rw u (sampled_loop-Picked stride offset m (suc i) s best a b))
                | inl u ↦ elim (Bool-cases (is_expired item.expiration now)) [
                  | inl t ↦ rw (f, sampled_loop) (rw u (rw t p))
                  | inr g ↦ elim (Bool-cases (leb sample_size (suc s))) [
                    | inl t ↦
                        rw (f, sampled_loop) (rw u (rw g (rw t (older-Picked best k item b p))))
                    | inr h ↦
                        rw (f, sampled_loop)
                          (rw u (
                            rw g (
                              rw h (
                                sampled_loop-Picked stride offset m (suc i) (suc s)
                                  (older best k item) a (older-Picked best k item b p)))))
                  ]
                ]
              ]
        ]

  module _ (new_key : String) (now : ℕ) where
    older-Found :
        (best : Oldest) (k : String) (item : Item T)
        → Found best.key
        → Found (older best k item).key
    unfolding older
    older-Found best k item b = elim (Bool-cases (ltb item.created_at best.time)) [
      | inl e ↦ rw e (k, refl)
      | inr e ↦ rw e b
    ]

    fallback_loop-Found :
        (m : List (String × Item T)) (s : ℕ) (best : Oldest)
        → Found best.key
        → Found (fallback_loop new_key now m s best)
    unfolding fallback_loop
    fallback_loop-Found [] s best b = b
    fallback_loop-Found ((k, item) ∷ m) s best b = elim (Bool-cases (str_eq k new_key)) [
      | inl t ↦ rw (t, fallback_loop) (fallback_loop-Found m s best b)
      | inr f ↦ elim (Bool-cases (is_expired item.expiration now)) [
        | inl t ↦ rw (f, fallback_loop) (rw t (k, refl))
        | inr g ↦ elim (Bool-cases (ltb (suc s) sample_size)) [
          | inl t ↦
              rw (f, fallback_loop)
                (rw g (
                  rw t (
                    fallback_loop-Found m (suc s) (older best k item) (older-Found best k item b))))
          | inr h ↦ rw (f, fallback_loop) (rw g (rw h (older-Found best k item b)))
        ]
      ]
    ]

    pub fallback_loop-none :
        (m : List (String × Item T)) (s : ℕ)
        → All Dated m
        → fallback_loop new_key now m s no_oldest ≡ none
        → All (IsNew new_key) m
    unfolding fallback_loop older
    fallback_loop-none [] s d h = tt
    fallback_loop-none ((k, item) ∷ m) s (young, d) h = elim (Bool-cases (str_eq k new_key)) [
      | inl t ↦ (t, fallback_loop-none m s d (rw (t, fallback_loop) at h))
      | inr f ↦ elim (Bool-cases (is_expired item.expiration now)) [
        | inl t ↦ cc (rw (f, fallback_loop, t) at h)
        | inr g ↦
            let best : (older no_oldest k item).key ≡ some k = ground (arith, young) in
            elim (Bool-cases (ltb (suc s) sample_size)) [
              | inl t ↦
                  let (j, found) =
                    fallback_loop-Found m (suc s) (older no_oldest k item) (k, best) in
                  let gone : fallback_loop new_key now m (suc s) (older no_oldest k item) ≡ none =
                    rw (f, fallback_loop, g, t) at h in
                  cc (sym found ∙ gone)
              | inr u ↦
                  let gone : (older no_oldest k item).key ≡ none =
                    rw (f, fallback_loop, g, u) at h in
                  cc (sym best ∙ gone)
            ]
      ]
    ]
