-- ===== src/SliceUtil.antt =====
-- sliceutil/sliceutil.go and maputil/maputil.go. A loop over a slice is a recursion over a list.
pub mod Chunks
pub mod Groups
use go_libs.Common.{
  ℕ, zero, suc, Bool, true, false, Option, none, some, List, [], ◌∷◌, ◌++◌, ite, if◌then◌else◌, ℤ,
  pos, negsuc, leb_ℤ, to_ℕ, length, take, drop, lookup, insert, is_some, min,
}

module _ {ℓ} {A B : Type ℓ} where
  unfoldable pub reduce : List A → B → (B → A → B) → B
  reduce [] acc f = acc
  reduce (v ∷ s) acc f = reduce s (f acc v) f

module _ {ℓ} {A : Type ℓ} where
  -- The loop of `Chunk`, on fuel: it takes `min(size, len(s))` elements in each turn.
  unfoldable pub chunk_loop : ℕ → ℕ → List A → List (List A)
  chunk_loop zero size s = []
  chunk_loop (suc fuel) size [] = []
  chunk_loop (suc fuel) size (x ∷ s) =
      let stop = min size (length (x ∷ s)) in
      take stop (x ∷ s) ∷ chunk_loop fuel size (drop stop (x ∷ s))

  unfoldable pub chunk : List A → ℤ → List (List A)
  chunk s size = if leb_ℤ size (pos 0) then [] else chunk_loop (length s) (to_ℕ size) s

  unfoldable pub flatten : List (List A) → List A
  flatten [] = []
  flatten (s ∷ slices) = s ++ flatten slices

  unfoldable pub first : List A → (A → Bool) → Option A
  first [] f = none
  first (v ∷ s) f = let rest = first s f in if f v then some v else rest

module _ {ℓ} {K A : Type ℓ} (dec : Discrete K) where
  -- The element of a map for a key that may be missing: `out[k]` of a map of slices.
  abbrev pub slice_at : Option (List A) → List A
  slice_at none = []
  slice_at (some s) = s

  unfoldable pub group_loop : List A → (A → K) → List (K × List A) → List (K × List A)
  group_loop [] f out = out
  group_loop (v ∷ s) f out =
      group_loop s f (insert dec (f v) (slice_at (lookup dec (f v) out) ++ (v ∷ [])) out)

  unfoldable pub group_by : List A → (A → K) → List (K × List A)
  group_by s f = group_loop s f []

module _ {ℓ} {K : Type ℓ} (dec : Discrete K) where
  -- The loop of `Unique`: `seen` is a set.
  unfoldable pub unique_loop : List K → List (K × K) → List K → List K
  unique_loop [] seen out = out
  unique_loop (v ∷ s) seen out =
      let skip = unique_loop s seen out in
      let keep = unique_loop s (insert dec v v seen) (out ++ (v ∷ [])) in
      if is_some (lookup dec v seen) then skip else keep

  unfoldable pub unique : List K → List K
  unique s = unique_loop s [] []

module _ {ℓ} {K V : Type ℓ} (dec : Discrete K) where
  unfoldable pub copy_into : List (K × V) → List (K × V) → List (K × V)
  copy_into out [] = out
  copy_into out ((k, v) ∷ m) = copy_into (insert dec k v out) m

  unfoldable pub merge_loop : List (K × V) → List (List (K × V)) → List (K × V)
  merge_loop out [] = out
  merge_loop out (m ∷ maps) = merge_loop (copy_into out m) maps

  unfoldable pub merge : List (List (K × V)) → List (K × V)
  merge maps = merge_loop [] maps

  unfoldable pub filter_loop : List (K × V) → (K → V → Bool) → List (K × V) → List (K × V)
  filter_loop [] f out = out
  filter_loop ((k, v) ∷ m) f out =
      let skip = filter_loop m f out in
      let keep = filter_loop m f (insert dec k v out) in if f k v then keep else skip

  unfoldable pub filter_map : List (K × V) → (K → V → Bool) → List (K × V)
  filter_map m f = filter_loop m f []
