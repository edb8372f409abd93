-- ===== src/SliceUtil/Groups.antt =====
-- What the loops of sliceutil and maputil put into a map, looked up by key.
use go_libs.Common.{
  ◌≡◌, ◌∙◌, refl, ap, sym, Option, none, some, List, [], ◌∷◌, ◌++◌, ite, if_pos, if_neg, lookup,
  insert, lookup-insert_self, lookup-insert_ne, subst, All,
}
use go_libs.SliceUtil.{group_loop, group_by, slice_at, merge, merge_loop, copy_into}
use go_libs.Common.{Distinct}
use mathlib.Core.List.{append_assoc, append-nil}

module _ {K A : Type 0} (dec : Discrete K) where
  -- The elements with key `k`, in order.
  unfoldable pub with_key : (A → K) → K → List A → List A
  with_key f k [] = []
  with_key f k (v ∷ s) = let rest = with_key f k s in ite (dec (f v) k) (v ∷ rest) rest

  lookup-group_loop :
      (f : A → K) (k : K) (s : List A) (out : List (K × List A))
      → slice_at dec (lookup dec k (group_loop dec s f out))
        ≡ slice_at dec (lookup dec k out) ++ with_key f k s
  unfolding group_loop with_key
  lookup-group_loop f k [] out = sym (append-nil _)
  lookup-group_loop f k (v ∷ s) out = lookup-group_loop f k s _ ∙ elim (dec (f v) k) [
    | yes p ↦ rw (if_pos (dec (f v) k) p) (
        subst
          (λ j.
            slice_at dec
                (lookup dec k (insert dec j (slice_at dec (lookup dec j out) ++ (v ∷ [])) out))
              ++ with_key f k s
            ≡ slice_at dec (lookup dec k out) ++ (v ∷ with_key f k s))
          (sym p)
          (rw (lookup-insert_self dec k (slice_at dec (lookup dec k out) ++ (v ∷ [])) out)
            (append_assoc _ (v ∷ []) (with_key f k s))))
    | no p ↦ rw (if_neg (dec (f v) k) p) (
        rw
          (lookup-insert_ne dec (f v) k (slice_at dec (lookup dec (f v) out) ++ (v ∷ [])) out
            (λ e. p (sym e)))
          refl)
  ]

  -- `GroupBy` puts under each key exactly the elements that the function sends to that key, in the order of the
  -- slice, and nothing under another key.
  lookup-group_by :
      (f : A → K) (k : K) (s : List A)
      → slice_at dec (lookup dec k (group_by dec s f)) ≡ with_key f k s
  unfolding group_by lookup
  lookup-group_by f k s = lookup-group_loop f k s []

module _ {K V : Type 0} (dec : Discrete K) where
  -- What a key has after two maps of which the second overrides the first.
  abbrev pub or_else : Option V → Option V → Option V
  or_else (some v) o = some v
  or_else none o = o

  or_else_assoc : (a b c : Option V) → or_else a (or_else b c) ≡ or_else (or_else a b) c
  or_else_assoc none b c = refl
  or_else_assoc (some a) b c = refl

  or_else-none : (a : Option V) → or_else a none ≡ a
  or_else-none none = refl
  or_else-none (some a) = refl

  -- The value of the last of the maps that has the key.
  unfoldable pub last_value : K → List (List (K × V)) → Option V
  last_value k [] = none
  last_value k (m ∷ maps) = or_else (last_value k maps) (lookup dec k m)

  lookup-copy_into :
      (k : K) (m out : List (K × V))
      → Distinct dec m
      → lookup dec k (copy_into dec out m) ≡ or_else (lookup dec k m) (lookup dec k out)
  unfolding copy_into lookup
  lookup-copy_into k [] out d = refl
  lookup-copy_into k ((j, v) ∷ m) out d =
      lookup-copy_into k m (insert dec j v out) d.1 ∙ elim (dec j k) [
        | yes p ↦
            let gone : lookup dec k m ≡ none = subst (λ i. lookup dec i m ≡ none) p d.0 in
            let there : lookup dec k (insert dec j v out) ≡ some v =
              subst (λ i. lookup dec i (insert dec j v out) ≡ some v) p
                (lookup-insert_self dec j v out) in
            rw (if_pos (dec j k) p) (rw (gone, there) refl)
        | no p ↦ rw (if_neg (dec j k) p) (rw (lookup-insert_ne dec j k v out (λ e. p (sym e))) refl)
      ]

  lookup-merge_loop :
      (k : K) (maps : List (List (K × V))) (out : List (K × V))
      → All (Distinct dec) maps
      → lookup dec k (merge_loop dec out maps) ≡ or_else (last_value k maps) (lookup dec k out)
  unfolding merge_loop last_value
  lookup-merge_loop k [] out d = refl
  lookup-merge_loop k (m ∷ maps) out d =
      lookup-merge_loop k maps (copy_into dec out m) d.1
      ∙ ap (or_else (last_value k maps)) (lookup-copy_into k m out d.0)
      ∙ or_else_assoc (last_value k maps) (lookup dec k m) (lookup dec k out)

  -- In the result of `Merge` each key has its value in the last of the maps that has the key, and no value
  -- if none has it. The maps are lists without a key twice.
  lookup-merge :
      (k : K) (maps : List (List (K × V)))
      → All (Distinct dec) maps
      → lookup dec k (merge dec maps) ≡ last_value k maps
  unfolding merge lookup
  lookup-merge k maps d = lookup-merge_loop k maps [] d ∙ or_else-none (last_value k maps)
