-- ===== src/Common/Values.antt =====
-- A property of the values of a map, kept by the map's operations.
use mathlib.Core.Bool.{Bool}
use mathlib.Core.List.{List, [], ◌∷◌}
use mathlib.Core.Logic.{if_pos, if_neg, inl, inr}
use mathlib.Core.Option.{some}
use mathlib.Core.Path.{◌≡◌, subst}
use native.Mathlib.Omega.{arith}
use go_libs.Common.Tests.{Bool-cases}
use go_libs.Common.Maps.{lookup, insert, delete, delete_if}

module _ {ℓ κ} {K V : Type ℓ} (P : V → Type κ) where
  abbrev pub AllValues : List (K × V) → Type κ
  AllValues [] = Unit
  AllValues ((k, v) ∷ m) = P v × AllValues m

  pub AllValues-delete_if :
      (dead : V → Bool) (m : List (K × V)) → AllValues m → AllValues (delete_if dead m)
  unfolding delete_if
  AllValues-delete_if dead [] a = tt
  AllValues-delete_if dead ((k, v) ∷ m) a = elim (Bool-cases (dead v)) [
    | inl e ↦ rw e (AllValues-delete_if dead m a.1)
    | inr e ↦ rw e (a.0, AllValues-delete_if dead m a.1)
  ]

  module _ (dec : Discrete K) where
    pub AllValues-lookup :
        (k : K) (v : V) (m : List (K × V)) → AllValues m → lookup dec k m ≡ some v → P v
    unfolding lookup
    AllValues-lookup k v [] a e = cc
    AllValues-lookup k v ((j, w) ∷ m) a e = elim (dec j k) [
      | yes p ↦ let same : w ≡ v = ground arith in subst P same a.0
      | no p ↦ AllValues-lookup k v m a.1 (ground arith)
    ]

    pub AllValues-insert :
        (k : K) (v : V) (m : List (K × V)) → P v → AllValues m → AllValues (insert dec k v m)
    unfolding insert
    AllValues-insert k v [] p a = (p, tt)
    AllValues-insert k v ((j, w) ∷ m) p a = elim (dec j k) [
      | yes q ↦ rw (if_pos _ q) (p, a.1)
      | no q ↦ rw (if_neg _ q) (a.0, AllValues-insert k v m p a.1)
    ]

    pub AllValues-delete : (k : K) (m : List (K × V)) → AllValues m → AllValues (delete dec k m)
    unfolding delete
    AllValues-delete k [] a = tt
    AllValues-delete k ((j, w) ∷ m) a = elim (dec j k) [
      | yes q ↦ rw (if_pos _ q) (AllValues-delete k m a.1)
      | no q ↦ rw (if_neg _ q) (a.0, AllValues-delete k m a.1)
    ]
