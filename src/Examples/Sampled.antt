-- ===== src/Examples/Sampled.antt =====
-- cache/cache.go at concrete inputs: a map that is visited in the order in which it was filled.
use go_libs.Common.{
  ℕ, ◌≤◌, ◌≡◌, refl, none, some, List, [], ◌∷◌, pos, length, arith, lookup, insert, delete,
  string_discrete, ◌+ℤ◌, ◌-ℤ◌,
}
use go_libs.Cache.Sampled.{
  SampledCache, new_sampled, get, len_of, fnv32, fnv_loop, fnv_step, evict_key, swap_item,
}
use go_libs.Cache.Sampled.Sampling.{
  RangeOrder, set, store_item, evict_if_needed, evict_loop, find_sampled_candidate, sampled_loop,
  older, stride_of,
}
use go_libs.Cache.Sampled.Bounds.{
  Call, set_call, get_call, run_calls, run_call, sampled_len_bounded,
}

abbrev in_order : RangeOrder ℕ
in_order = record { visits = λ m. m; visited = λ P m. (λ a. a, λ a. a) }

abbrev clock : ℕ → ℕ
clock i = 9

-- `a` is read, but not written, after `b`.
abbrev filled : List (Call ℕ)
filled =
    set_call "a" 1 none 1 clock
    ∷ set_call "b" 2 none 2 clock
    ∷ get_call "a" 3 3
    ∷ set_call "c" 3 (some (pos 50)) 4 clock
    ∷ []

-- The entry that was written first goes, although it was read last.
drops_a :
    let c : SampledCache ℕ = run_calls in_order (new_sampled (pos 2)) filled in
    ((get c "a" 5 5).1 ≡ none) × ((get c "b" 5 5).1 ≡ some 2) × ((get c "c" 5 5).1 ≡ some 3)
unfolding run_calls run_call new_sampled get set store_item swap_item evict_if_needed evict_loop
    evict_key find_sampled_candidate sampled_loop older stride_of lookup insert delete
    string_discrete ◌+ℤ◌ ◌-ℤ◌
drops_a = (refl, refl, refl)

-- The hash of "a" that the FNV-1a tables give.
fnv_of_a : fnv32 (97 ∷ []) ≡ 3_826_002_220
unfolding fnv32 fnv_loop fnv_step
fnv_of_a = refl

sampled_len_bounded_example :
    let c : SampledCache ℕ = run_calls in_order (new_sampled (pos 2)) filled in
    (len_of c ≤ 2) × (len_of c ≡ length c.items)
sampled_len_bounded_example =
    sampled_len_bounded in_order 1 filled (omega arith, (omega arith, (tt, (omega arith, tt))))
