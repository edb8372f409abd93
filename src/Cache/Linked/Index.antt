-- ===== src/Cache/Linked/Index.antt =====
-- A map from keys to addresses against a list of addresses that have keys.
use go_libs.Common.{
  ℕ, suc, ◌≡◌, ◌≢◌, refl, sym, ◌∙◌, subst, ap, inl, inr, Bool-cases, true, ◌==◌, Option, none, some,
  String, List, [], ◌∷◌, ite, if_pos, if_neg, arith, lookup, insert, delete, Distinct,
  insert-Distinct, delete-Distinct, lookup-insert_self, lookup-insert_ne, lookup-delete_self,
  lookup-delete_ne, length-insert_new, length-delete_one, string_discrete, length,
}
use go_libs.Cache.Chain.Links.{has, erase}

-- The first address with the key `k`.
unfoldable pub id_of : (ℕ → String) → String → List ℕ → Option ℕ
id_of key k [] = none
id_of key k (i ∷ is) = ite (string_discrete (key i) k) (some i) (id_of key k is)

-- No two addresses have the same key.
abbrev pub Unique : (ℕ → String) → List ℕ → Type 0
Unique key [] = Unit
Unique key (i ∷ is) = (id_of key (key i) is ≡ none) × Unique key is

pub record Indexed (key : ℕ → String) (items : List (String × ℕ)) (is : List ℕ) : Type 0 where
  pub keyed : (k : String) → lookup string_discrete k items ≡ id_of key k is
  pub unique : Unique key is
  pub size : length items ≡ length is
  pub distinct : Distinct string_discrete items

none≢some : {i : ℕ} → ◌≢◌ {A = Option ℕ} none (some i)
none≢some e = cc

pred_eq : {m n : ℕ} → suc m ≡ suc n → m ≡ n
pred_eq e = omega (arith, e)

module _ (key : ℕ → String) where
  -- An address that is found is in the list, and has the key.
  pub id_of-has :
      (k : String) (is : List ℕ) (i : ℕ) → id_of key k is ≡ some i → (has i is ≡ true) × (key i ≡ k)
  unfolding id_of
  id_of-has k [] i e = cc
  id_of-has k (j ∷ is) i e = elim (string_discrete (key j) k) [
    | yes p ↦ ground (arith, p)
    | no p ↦ ground (arith, p, id_of-has k is i)
  ]

  -- An address of the list is found by its key.
  pub id_of_key :
      (is : List ℕ) (i : ℕ) → Unique key is → has i is ≡ true → id_of key (key i) is ≡ some i
  unfolding id_of
  id_of_key [] i u m = cc
  id_of_key (j ∷ is) i u m = elim (Bool-cases (j == i)) [
    | inl e ↦
        let same : j ≡ i = ground arith in
        rw (if_pos (string_discrete (key j) (key i)) (ap key same)) (ap some same)
    | inr e ↦
        let found : id_of key (key i) is ≡ some i = id_of_key is i u.1 (ground arith) in
        let ne : key j ≢ key i =
          λ p. absurd (none≢some (sym (subst (λ k. id_of key k is ≡ none) p u.0) ∙ found)) in
        rw (if_neg (string_discrete (key j) (key i)) ne) found
  ]

  id_of-erase_self :
      (i : ℕ) (is : List ℕ)
      → Unique key is
      → has i is ≡ true
      → id_of key (key i) (erase i is) ≡ none
  unfolding id_of
  id_of-erase_self i [] u m = cc
  id_of-erase_self i (j ∷ is) u m = elim (Bool-cases (j == i)) [
    | inl e ↦
        let same : j ≡ i = ground arith in rw e (subst (λ k. id_of key (key k) is ≡ none) same u.0)
    | inr e ↦
        let inside : has i is ≡ true = ground arith in
        let ne : key j ≢ key i = λ p. absurd (
          none≢some (sym (subst (λ k. id_of key k is ≡ none) p u.0) ∙ id_of_key is i u.1 inside)) in
        rw e (rw (if_neg (string_discrete (key j) (key i)) ne) (id_of-erase_self i is u.1 inside))
  ]

  id_of-erase_ne :
      (k : String) (i : ℕ) (is : List ℕ) → key i ≢ k → id_of key k (erase i is) ≡ id_of key k is
  unfolding id_of
  id_of-erase_ne k i [] ne = refl
  id_of-erase_ne k i (j ∷ is) ne = ground (arith, id_of-erase_ne k i is ne)

  id_of-none-erase :
      (i : ℕ) (k : String) (is : List ℕ) → id_of key k is ≡ none → id_of key k (erase i is) ≡ none
  unfolding id_of
  id_of-none-erase i k [] e = refl
  id_of-none-erase i k (j ∷ is) e = ground (arith, id_of-none-erase i k is)

  Unique-erase : (i : ℕ) (is : List ℕ) → Unique key is → Unique key (erase i is)
  Unique-erase i [] u = tt
  Unique-erase i (j ∷ is) u =
      ground (arith, Unique-erase i is u.1, id_of-none-erase i (key j) is u.0)

  length-erase : (i : ℕ) (is : List ℕ) → has i is ≡ true → suc (length (erase i is)) ≡ length is
  length-erase i [] m = cc
  length-erase i (j ∷ is) m = ground (arith, length-erase i is)

  id_of_first : (i : ℕ) (is : List ℕ) → id_of key (key i) (i ∷ is) ≡ some i
  unfolding id_of
  id_of_first i is = if_pos (string_discrete (key i) (key i)) refl _ _

  id_of_later :
      (i : ℕ) (k : String) (is : List ℕ) → key i ≢ k → id_of key k (i ∷ is) ≡ id_of key k is
  unfolding id_of
  id_of_later i k is ne = if_neg (string_discrete (key i) k) ne _ _

  id_of_front :
      (i : ℕ) (k : String) (is : List ℕ)
      → Unique key is
      → has i is ≡ true
      → id_of key k is ≡ id_of key k (i ∷ erase i is)
  id_of_front i k is u m = elim (string_discrete (key i) k) [
    | yes p ↦
        subst (λ q. id_of key q is ≡ id_of key q (i ∷ erase i is)) p
          (id_of_key is i u m ∙ sym (id_of_first i (erase i is)))
    | no ne ↦ sym (id_of_later i k (erase i is) ne ∙ id_of-erase_ne k i is ne)
  ]

  module _ (items : List (String × ℕ)) (is : List ℕ) (x : Indexed key items is) where
    -- A node leaves the list, and its key the map.
    pub erase-Indexed :
        (i : ℕ) → has i is ≡ true → Indexed key (delete string_discrete (key i) items) (erase i is)
    erase-Indexed i m = record {
      keyed = λ k. elim (string_discrete (key i) k) [
        | yes p ↦
            subst
              (λ q.
                lookup string_discrete q (delete string_discrete (key i) items)
                ≡ id_of key q (erase i is))
              p
              (lookup-delete_self string_discrete (key i) items
                ∙ sym (id_of-erase_self i is x.unique m))
        | no ne ↦
            lookup-delete_ne string_discrete (key i) k items (λ p. ne (sym p))
            ∙ x.keyed k
            ∙ sym (id_of-erase_ne k i is ne)
      ];
      unique = Unique-erase i is x.unique;
      size = pred_eq (
          length-delete_one string_discrete (key i) i items x.distinct
            (x.keyed (key i) ∙ id_of_key is i x.unique m)
          ∙ x.size
          ∙ sym (length-erase i is m));
      distinct = delete-Distinct string_discrete (key i) items x.distinct;
    }

    -- A node moves to the front.
    pub front-Indexed : (i : ℕ) → has i is ≡ true → Indexed key items (i ∷ erase i is)
    front-Indexed i m = record {
      keyed = λ k. x.keyed k ∙ id_of_front i k is x.unique m;
      unique = (id_of-erase_self i is x.unique m, Unique-erase i is x.unique);
      size = x.size ∙ sym (length-erase i is m);
      distinct = x.distinct;
    }

    -- A node with a new key comes to the front.
    pub insert-Indexed :
        (i : ℕ)
        → lookup string_discrete (key i) items ≡ none
        → Indexed key (insert string_discrete (key i) i items) (i ∷ is)
    insert-Indexed i miss = record {
      keyed = λ k. elim (string_discrete (key i) k) [
        | yes p ↦
            subst
              (λ q.
                lookup string_discrete q (insert string_discrete (key i) i items)
                ≡ id_of key q (i ∷ is))
              p (lookup-insert_self string_discrete (key i) i items ∙ sym (id_of_first i is))
        | no ne ↦
            lookup-insert_ne string_discrete (key i) k i items (λ p. ne (sym p))
            ∙ x.keyed k
            ∙ sym (id_of_later i k is ne)
      ];
      unique = (sym (x.keyed (key i)) ∙ miss, x.unique);
      size = length-insert_new string_discrete (key i) i items miss ∙ ap suc x.size;
      distinct = insert-Distinct string_discrete (key i) i items x.distinct;
    }

id_of_agree :
    (key key' : ℕ → String) (k : String) (is : List ℕ)
    → ((i : ℕ) → has i is ≡ true → key' i ≡ key i)
    → id_of key' k is ≡ id_of key k is
unfolding id_of
id_of_agree key key' k [] a = refl
id_of_agree key key' k (i ∷ is) a =
    rw (a i (ground arith), id_of_agree key key' k is (λ j m. a j (ground (arith, m)))) refl

Unique_agree :
    (key key' : ℕ → String) (is : List ℕ)
    → ((i : ℕ) → has i is ≡ true → key' i ≡ key i)
    → Unique key is
    → Unique key' is
Unique_agree key key' [] a u = tt
Unique_agree key key' (i ∷ is) a u = (
  rw (a i (ground arith)) (id_of_agree key key' (key i) is (λ j m. a j (ground (arith, m))) ∙ u.0),
  Unique_agree key key' is (λ j m. a j (ground (arith, m))) u.1,
)

-- Only the keys of the addresses of the list matter.
pub Indexed-agree :
    (key key' : ℕ → String) (items : List (String × ℕ)) (is : List ℕ)
    → ((i : ℕ) → has i is ≡ true → key' i ≡ key i)
    → Indexed key items is
    → Indexed key' items is
Indexed-agree key key' items is a x = record {
  keyed = λ k. x.keyed k ∙ sym (id_of_agree key key' k is a);
  unique = Unique_agree key key' is a x.unique;
  size = x.size;
  distinct = x.distinct;
}
