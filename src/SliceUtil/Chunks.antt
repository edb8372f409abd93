-- ===== src/SliceUtil/Chunks.antt =====
-- `Chunk` of sliceutil/sliceutil.go against `Flatten`.
use go_libs.Common.{
  ℕ, zero, suc, ◌≤◌, ◌<◌, ◌≡◌, ◌∙◌, refl, ap, false, List, [], ◌∷◌, ◌++◌, pos, leb_ℤ, min, length,
  take, drop, All, arith, length-take, length-drop, take-append-drop,
}
use go_libs.SliceUtil.{chunk_loop, chunk, flatten}

-- A chunk that is not empty and not too long.
abbrev pub Sized {ℓ} : {A : Type ℓ} → ℕ → List A → Type 0
Sized size c = (0 < length c) × (length c ≤ size)

module _ {ℓ} {A : Type ℓ} where
  flatten-chunk_loop :
      (fuel size : ℕ) (s : List A)
      → 0 < size
      → length s ≤ fuel
      → flatten (chunk_loop fuel size s) ≡ s
  unfolding chunk_loop flatten
  flatten-chunk_loop zero size [] p h = refl
  flatten-chunk_loop zero size (x ∷ s) p h = absurd (omega arith)
  flatten-chunk_loop (suc fuel) size [] p h = refl
  flatten-chunk_loop (suc fuel) size (x ∷ s) p h =
      let stop = min size (length (x ∷ s)) in
      ap (λ t. take stop (x ∷ s) ++ t)
        (flatten-chunk_loop fuel size (drop stop (x ∷ s)) p
          (omega (arith, length-drop stop (x ∷ s))))
      ∙ take-append-drop stop (x ∷ s)

  chunk_loop-Sized :
      (fuel size : ℕ) (s : List A) → 0 < size → All (Sized size) (chunk_loop fuel size s)
  unfolding chunk_loop
  chunk_loop-Sized zero size s p = tt
  chunk_loop-Sized (suc fuel) size [] p = tt
  chunk_loop-Sized (suc fuel) size (x ∷ s) p =
      let stop = min size (length (x ∷ s)) in
      (
        (omega (arith, length-take stop (x ∷ s)), omega (arith, length-take stop (x ∷ s))),
        chunk_loop-Sized fuel size (drop stop (x ∷ s)) p,
      )

  -- For a positive size, `Chunk` loses nothing and reorders nothing, since `Flatten` gives the slice
  -- back, and every chunk has at least one and at most `size` elements.
  flatten-chunk :
      (s : List A) (size : ℕ)
      → 0 < size
      → (flatten (chunk s (pos size)) ≡ s) × All (Sized size) (chunk s (pos size))
  unfolding chunk
  flatten-chunk s size p =
      let positive : leb_ℤ (pos size) (pos 0) ≡ false = ground arith in
      rw positive
        (flatten-chunk_loop (length s) size s p (omega arith), chunk_loop-Sized (length s) size s p)
