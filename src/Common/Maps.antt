-- ===== src/Common/Maps.antt =====
-- Go's `map[string]V` as an association list. The iteration order of a Go map is unspecified: a
-- `range` loop walks the list, and what is proved holds for every list, so for every order.
use Prim.Native.Nat.{suc, ◌≤◌}
use Prim.Native.String.{String}
use mathlib.Core.Bool.{Bool, true, false}
use mathlib.Core.List.{List, [], ◌∷◌}
use mathlib.Core.Logic.{◌≢◌, ◌↔◌, ite, if_pos, if_neg}
use mathlib.Core.Option.{Option, none, some}
use mathlib.Core.Path.{◌≡◌, refl, subst, ◌∙◌}
use native.Mathlib.Omega.{arith}
use text.Mathlib.Text.{◌==◌ as str_eq}
use text.Mathlib.TextEquality.{eq_iff}
use go_libs.Common.Tests.{if◌then◌else◌}
use go_libs.Common.Lists.{length}

string_dec : (s t : String) (b : Bool) → (b ≡ true) ↔ (s ≡ t) → Dec (s ≡ t)
string_dec s t true e = yes (e.0 refl)
string_dec s t false e = no (λ p. cc (e.1 p))

unfoldable pub string_discrete : Discrete String
unfolding string_dec
string_discrete s t = string_dec s t (str_eq s t) (eq_iff s t)

-- Two texts that the comparison tells apart.
pub string_ne : (s t : String) → str_eq s t ≡ false → s ≢ t
string_ne s t h p = cc ((eq_iff s t).1 p)

module _ {ℓ} {K V : Type ℓ} (dec : Discrete K) where
  -- `m[k]`, with `ok`.
  unfoldable pub lookup : K → List (K × V) → Option V
  lookup k [] = none
  lookup k ((j, v) ∷ m) = ite (dec j k) (some v) (lookup k m)

  -- `m[k] = v`.
  unfoldable pub insert : K → V → List (K × V) → List (K × V)
  insert k v [] = (k, v) ∷ []
  insert k v ((j, w) ∷ m) = ite (dec j k) ((k, v) ∷ m) ((j, w) ∷ insert k v m)

  -- `delete(m, k)`.
  unfoldable pub delete : K → List (K × V) → List (K × V)
  delete k [] = []
  delete k ((j, w) ∷ m) = ite (dec j k) (delete k m) ((j, w) ∷ delete k m)

  pub lookup-insert_self : (k : K) (v : V) (m : List (K × V)) → lookup k (insert k v m) ≡ some v
  unfolding lookup insert
  lookup-insert_self k v [] = ground arith
  lookup-insert_self k v ((j, w) ∷ m) = ground (arith, lookup-insert_self k v m)

  pub lookup-insert_ne :
      (k q : K) (v : V) (m : List (K × V)) → q ≢ k → lookup q (insert k v m) ≡ lookup q m
  unfolding lookup insert
  lookup-insert_ne k q v [] h = ground arith
  lookup-insert_ne k q v ((j, w) ∷ m) h = ground (arith, lookup-insert_ne k q v m)

  pub lookup-delete_self : (k : K) (m : List (K × V)) → lookup k (delete k m) ≡ none
  unfolding lookup delete
  lookup-delete_self k [] = refl
  lookup-delete_self k ((j, w) ∷ m) = ground (arith, lookup-delete_self k m)

  pub lookup-delete_ne : (k q : K) (m : List (K × V)) → q ≢ k → lookup q (delete k m) ≡ lookup q m
  unfolding lookup delete
  lookup-delete_ne k q [] h = refl
  lookup-delete_ne k q ((j, w) ∷ m) h = ground (arith, lookup-delete_ne k q m)

  pub length-insert_new :
      (k : K) (v : V) (m : List (K × V))
      → lookup k m ≡ none
      → length (insert k v m) ≡ suc (length m)
  unfolding lookup insert
  length-insert_new k v [] h = refl
  length-insert_new k v ((j, w) ∷ m) h = ground (arith, length-insert_new k v m)

  pub length-insert_old :
      (k : K) (v w : V) (m : List (K × V)) → lookup k m ≡ some w → length (insert k v m) ≡ length m
  unfolding lookup insert
  length-insert_old k v w [] h = cc
  length-insert_old k v w ((j, u) ∷ m) h = ground (arith, length-insert_old k v w m)

  pub length-delete-le : (k : K) (m : List (K × V)) → length (delete k m) ≤ length m
  unfolding delete
  length-delete-le k [] = omega arith
  length-delete-le k ((j, w) ∷ m) = ground (arith, length-delete-le k m)

  pub length-delete_old :
      (k : K) (w : V) (m : List (K × V))
      → lookup k m ≡ some w
      → suc (length (delete k m)) ≤ length m
  unfolding lookup delete
  length-delete_old k w [] h = cc
  length-delete_old k w ((j, u) ∷ m) h =
      ground (arith, length-delete_old k w m, length-delete-le k m)

  -- No key stands twice. Every map that the operations make is so.
  abbrev pub Distinct : List (K × V) → Type ℓ
  Distinct [] = Unit
  Distinct ((k, v) ∷ m) = (lookup k m ≡ none) × Distinct m

  pub insert-Distinct : (k : K) (v : V) (m : List (K × V)) → Distinct m → Distinct (insert k v m)
  unfolding lookup insert
  insert-Distinct k v [] d = (refl, tt)
  insert-Distinct k v ((j, w) ∷ m) d = elim (dec j k) [
    | yes p ↦ rw (if_pos _ p) (subst (λ i. lookup i m ≡ none) p d.0, d.1)
    | no p ↦ rw (if_neg _ p) (lookup-insert_ne k j v m p ∙ d.0, insert-Distinct k v m d.1)
  ]

  pub lookup-delete-none :
      (k q : K) (m : List (K × V)) → lookup q m ≡ none → lookup q (delete k m) ≡ none
  unfolding lookup delete
  lookup-delete-none k q [] h = refl
  lookup-delete-none k q ((j, w) ∷ m) h = ground (arith, lookup-delete-none k q m)

  pub delete-Distinct : (k : K) (m : List (K × V)) → Distinct m → Distinct (delete k m)
  unfolding delete
  delete-Distinct k [] d = tt
  delete-Distinct k ((j, w) ∷ m) d = elim (dec j k) [
    | yes p ↦ rw (if_pos _ p) (delete-Distinct k m d.1)
    | no p ↦ rw (if_neg _ p) (lookup-delete-none k j m d.0, delete-Distinct k m d.1)
  ]

module _ {ℓ} {K V : Type ℓ} (dec : Discrete K) where
  delete_missing : (k : K) (m : List (K × V)) → lookup dec k m ≡ none → delete dec k m ≡ m
  unfolding lookup delete
  delete_missing k [] h = refl
  delete_missing k ((j, w) ∷ m) h = ground (arith, delete_missing k m)

  -- Of a map with one entry for each key, `delete` takes one entry.
  pub length-delete_one :
      (k : K) (w : V) (m : List (K × V))
      → Distinct dec m
      → lookup dec k m ≡ some w
      → suc (length (delete dec k m)) ≡ length m
  unfolding lookup delete
  length-delete_one k w [] d h = cc
  length-delete_one k w ((j, u) ∷ m) d h = elim (dec j k) [
    | yes p ↦
        let gone : delete dec k m ≡ m =
          delete_missing k m (subst (λ i. lookup dec i m ≡ none) p d.0) in
        rw (if_pos (dec j k) p) (rw gone refl)
    | no p ↦ ground (arith, length-delete_one k w m d.1)
  ]

-- What such a loop leaves of one entry.
abbrev pub alive {ℓ} : {V : Type ℓ} → (V → Bool) → Option V → Option V
alive dead none = none
alive dead (some v) = if dead v then none else some v

module _ {ℓ} {K V : Type ℓ} where
  -- `for k, v := range m { if dead(v) { delete(m, k) } }`.
  unfoldable pub delete_if : (V → Bool) → List (K × V) → List (K × V)
  delete_if dead [] = []
  delete_if dead ((k, v) ∷ m) =
      let rest = delete_if dead m in if dead v then rest else (k, v) ∷ rest

  pub length-delete_if-le :
      (dead : V → Bool) (m : List (K × V)) → length (delete_if dead m) ≤ length m
  unfolding delete_if
  length-delete_if-le dead [] = omega arith
  length-delete_if-le dead ((k, v) ∷ m) = ground (arith, length-delete_if-le dead m)

  module _ (dec : Discrete K) (dead : V → Bool) where
    pub lookup-delete_if :
        (k : K) (m : List (K × V))
        → Distinct dec m
        → lookup dec k (delete_if dead m) ≡ alive dead (lookup dec k m)
    unfolding lookup delete_if
    lookup-delete_if k [] d = refl
    lookup-delete_if k ((j, w) ∷ m) d = elim (dec j k) [
      | yes p ↦
          let gone : lookup dec k m ≡ none = subst (λ i. lookup dec i m ≡ none) p d.0 in
          ground (arith, lookup-delete_if k m d.1)
      | no p ↦ ground (arith, lookup-delete_if k m d.1)
    ]

    pub delete_if-none :
        (k : K) (m : List (K × V)) → lookup dec k m ≡ none → lookup dec k (delete_if dead m) ≡ none
    unfolding lookup delete_if
    delete_if-none k [] h = refl
    delete_if-none k ((j, w) ∷ m) h = ground (arith, delete_if-none k m)

    pub delete_if-Distinct : (m : List (K × V)) → Distinct dec m → Distinct dec (delete_if dead m)
    unfolding delete_if
    delete_if-Distinct [] d = tt
    delete_if-Distinct ((j, w) ∷ m) d =
        ground (arith, delete_if-Distinct m d.1, delete_if-none j m d.0)
