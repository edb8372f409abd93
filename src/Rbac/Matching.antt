-- ===== src/Rbac/Matching.antt =====
-- What `Match` of rbac/engine.go decides, as a relation on segments that says nothing of lengths.
use go_libs.Common.{
  ℕ, suc, ◌+◌, ◌≤◌, ◌≡◌, ◌≢◌, ◌↔◌, ◌⊎◌, inl, inr, refl, sym, subst, Bool, true, false, ◌||◌, String,
  List, [], ◌∷◌, length, str_eq, arith, string_ne, Bool-cases, All,
}
use text.Mathlib.TextEquality.{eq_iff}
use go_libs.Rbac.{
  match_parts, match_segments, match_normal, matches, has_permission, has_all_permissions,
}

-- `Permits ps rs`: the segments `ps` of a pattern permit the segments `rs`. A last "*" stands for one
-- segment or more, any other "*" for one segment, and what is not "*" for itself.
pub data Permits : List String → List String → Type 0 where
  ended : Permits [] []
  tail : (r : String) (rs : List String) → Permits ("*" ∷ []) (r ∷ rs)
  any_segment :
      (p r : String) (ps rs : List String) → Permits (p ∷ ps) rs → Permits ("*" ∷ p ∷ ps) (r ∷ rs)
  same_segment :
      (p : String) (ps rs : List String) → p ≢ "*" → Permits ps rs → Permits (p ∷ ps) (p ∷ rs)

segment :
    (p r : String) (ps rs : List String)
    → p ≢ "*"
    → p ≡ r
    → Permits ps rs
    → Permits (p ∷ ps) (r ∷ rs)
segment p r ps rs ne e q = subst (λ x. Permits (p ∷ ps) (x ∷ rs)) e (same_segment p ps rs ne q)

-- The loop is right when it starts with equally many segments read from both lists.
parts_sound :
    (k n m : ℕ) (ps rs : List String)
    → n ≡ k + length ps
    → m ≡ k + length rs
    → match_parts n m ps rs ≡ true
    → Permits ps rs
unfolding match_parts
parts_sound k n m [] [] a b h = ended
parts_sound k n m [] (r ∷ rs) a b h = ground arith
parts_sound k n m (p ∷ ps) [] a b h = cc
parts_sound k n m (p ∷ []) (r ∷ rs) a b h = elim (Bool-cases (str_eq p "*")) [
  | inl e ↦ subst (λ x. Permits (x ∷ []) (r ∷ rs)) (sym ((eq_iff p "*").0 e)) (tail r rs)
  | inr e ↦
      let same : str_eq p r ≡ true = ground arith in
      let rest : match_parts n m [] rs ≡ true = ground arith in
      segment p r [] rs (string_ne p "*" e) ((eq_iff p r).0 same)
        (parts_sound (suc k) n m [] rs (omega arith) (omega arith) rest)
]
parts_sound k n m (p ∷ q ∷ ps) (r ∷ rs) a b h = elim (Bool-cases (str_eq p "*")) [
  | inl e ↦
      let rest : match_parts n m (q ∷ ps) rs ≡ true = ground arith in
      subst (λ x. Permits (x ∷ q ∷ ps) (r ∷ rs)) (sym ((eq_iff p "*").0 e))
        (any_segment q r ps rs
          (parts_sound (suc k) n m (q ∷ ps) rs (omega arith) (omega arith) rest))
  | inr e ↦
      let same : str_eq p r ≡ true = ground arith in
      let rest : match_parts n m (q ∷ ps) rs ≡ true = ground arith in
      segment p r (q ∷ ps) rs (string_ne p "*" e) ((eq_iff p r).0 same)
        (parts_sound (suc k) n m (q ∷ ps) rs (omega arith) (omega arith) rest)
]

text_differs : (s t : String) → s ≢ t → str_eq s t ≡ false
text_differs s t ne = elim (Bool-cases (str_eq s t)) [
  | inl e ↦ absurd (ne ((eq_iff s t).0 e))
  | inr e ↦ e
]

text_same : (s : String) → str_eq s s ≡ true
text_same s = (eq_iff s s).1 refl

parts_complete :
    (k n m : ℕ) (ps rs : List String)
    → n ≡ k + length ps
    → m ≡ k + length rs
    → Permits ps rs
    → match_parts n m ps rs ≡ true
unfolding match_parts
parts_complete k n m _ _ a b ended = ground arith
parts_complete k n m _ _ a b (tail r rs) = refl
parts_complete k n m _ _ a b (any_segment p r ps rs q) =
    ground (arith, parts_complete (suc k) n m (p ∷ ps) rs (omega arith) (omega arith) q)
parts_complete k n m _ _ a b (same_segment p ps rs ne q) =
    rw (text_differs p "*" ne, match_parts, text_same p)
      (parts_complete (suc k) n m ps rs (omega arith) (omega arith) q)

Permits-le : {ps rs : List String} → Permits ps rs → length ps ≤ length rs
Permits-le ended = omega arith
Permits-le (tail r rs) = omega arith
Permits-le (any_segment p r ps rs q) = omega (arith, Permits-le q)
Permits-le (same_segment p ps rs ne q) = omega (arith, Permits-le q)

segments_sound : (ps rs : List String) → match_segments ps rs ≡ true → Permits ps rs
unfolding match_segments
segments_sound ps rs h =
    parts_sound 0 (length ps) (length rs) ps rs (omega arith) (omega arith) (ground arith)

segments_complete : (ps rs : List String) → Permits ps rs → match_segments ps rs ≡ true
unfolding match_segments
segments_complete ps rs q = ground (
  arith,
  parts_complete 0 (length ps) (length rs) ps rs (omega arith) (omega arith) q,
  Permits-le q,
)

-- The segment loop of `Match`, with its tests on the lengths and on
-- the position of a wildcard, decides exactly the relation `Permits`.
match_segments-Permits : (ps rs : List String) → (match_segments ps rs ≡ true) ↔ Permits ps rs
match_segments-Permits ps rs = (segments_sound ps rs, segments_complete ps rs)

normal_sound :
    (split : String → List String) (pattern requested : String)
    → match_normal split pattern requested ≡ true
    → ((str_eq pattern "" || str_eq requested "") ≡ false)
      × (((str_eq pattern "*" || str_eq pattern "*:*" || str_eq pattern requested) ≡ true)
          ⊎ Permits (split pattern) (split requested))
unfolding match_normal
normal_sound split p r h = ground (arith, segments_sound (split p) (split r))

normal_complete :
    (split : String → List String) (pattern requested : String)
    → ((str_eq pattern "" || str_eq requested "") ≡ false)
      × (((str_eq pattern "*" || str_eq pattern "*:*" || str_eq pattern requested) ≡ true)
          ⊎ Permits (split pattern) (split requested))
    → match_normal split pattern requested ≡ true
unfolding match_normal
normal_complete split p r (full, inl plain) = ground arith
normal_complete split p r (full, inr q) = ground (arith, segments_complete (split p) (split r) q)

-- `Match` on trimmed texts in lower case permits exactly if neither text is empty, and the pattern is "*", is
-- "*:*", is the requested text itself, or its segments permit those of the requested text.
pub match_normal-Permits :
    (split : String → List String) (pattern requested : String)
    → (match_normal split pattern requested ≡ true)
      ↔ ((str_eq pattern "" || str_eq requested "") ≡ false)
        × (((str_eq pattern "*" || str_eq pattern "*:*" || str_eq pattern requested) ≡ true)
            ⊎ Permits (split pattern) (split requested))
match_normal-Permits split p r = (normal_sound split p r, normal_complete split p r)

-- One of the patterns matches.
abbrev pub AnyMatch : (String → String → Bool) → List String → String → Type 0
AnyMatch test [] req = ⊥
AnyMatch test (p ∷ ps) req = (test p req ≡ true) ⊎ AnyMatch test ps req

module _ (trim_space to_lower : String → String) (split : String → List String) where
  permission_sound :
      (perms : List String) (req : String)
      → has_permission trim_space to_lower split perms req ≡ true
      → AnyMatch (matches trim_space to_lower split) perms req
  unfolding has_permission
  permission_sound [] req h = cc
  permission_sound (p ∷ perms) req h = ground (arith, permission_sound perms req)

  permission_complete :
      (perms : List String) (req : String)
      → AnyMatch (matches trim_space to_lower split) perms req
      → has_permission trim_space to_lower split perms req ≡ true
  unfolding has_permission
  permission_complete [] req q = elim q [ ]
  permission_complete (p ∷ perms) req (inl h) = ground arith
  permission_complete (p ∷ perms) req (inr q) = ground (arith, permission_complete perms req q)

  every_sound :
      (perms reqs : List String)
      → has_all_permissions trim_space to_lower split perms reqs ≡ true
      → All (AnyMatch (matches trim_space to_lower split) perms) reqs
  unfolding has_all_permissions
  every_sound perms [] h = tt
  every_sound perms (req ∷ reqs) h =
      let first : has_permission trim_space to_lower split perms req ≡ true = ground arith in
      let rest : has_all_permissions trim_space to_lower split perms reqs ≡ true = ground arith in
      (permission_sound perms req first, every_sound perms reqs rest)

  every_complete :
      (perms reqs : List String)
      → All (AnyMatch (matches trim_space to_lower split) perms) reqs
      → has_all_permissions trim_space to_lower split perms reqs ≡ true
  unfolding has_all_permissions
  every_complete perms [] q = refl
  every_complete perms (req ∷ reqs) q =
      rw (permission_complete perms req q.0) (every_complete perms reqs q.1)

  -- `HasAllPermissions` holds exactly if every required permission is matched by one of the user's patterns.
  has_all_permissions-All :
      (perms reqs : List String)
      → (has_all_permissions trim_space to_lower split perms reqs ≡ true)
        ↔ All (AnyMatch (matches trim_space to_lower split) perms) reqs
  has_all_permissions-All perms reqs = (every_sound perms reqs, every_complete perms reqs)
