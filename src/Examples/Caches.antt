-- ===== src/Examples/Caches.antt =====
-- cache/lru.go and cache/fifo.go at concrete inputs. A value and an error are numbers.
use go_libs.Common.{
  ◌+ℤ◌, ◌-ℤ◌, ℕ_discrete, ℕ, lookup, insert, delete, string_discrete, ◌≡◌, refl, none, some, inl,
  inr, List, [], ◌∷◌, pos, default_ℤ,
}
use go_libs.Cache.Chain.{write, add_to_front, remove_node, clear_links, skip_prev, skip_next}
use go_libs.Cache.Linked.{
  new_backend, len_of, add_node, insert_node, evict_oldest, delete_key, drop_node, expire_node,
  set_value,
}
use go_libs.Cache.Lru
use go_libs.Cache.Lru.{move_to_front}
use go_libs.Cache.Fifo
use go_libs.Cache.Lfu
use go_libs.Cache.Lfu.{
  LfuBackend, new_lfu_backend, len_counted, add_counted, push_node, push_front, unlink, remove_from,
  evict_min_freq, pop_tail, increment_freq,
}
use go_libs.Cache.Linked.Traces.{
  Op, run_op, run_ops, spec_ops, get_item, set_item, delete_item, count_items, got, counted, quiet,
}
use go_libs.Cache.Lru.Refines.{lru}
use go_libs.Cache.Fifo.Refines.{fifo}
use go_libs.Cache.Fetch.{Flight}
use go_libs.Cache.Answers.{lru_answers, fifo_answers}

-- `a` is read between the insertions of `b` and `c`.
abbrev calls : List (Op ℕ)
calls =
    set_item "a" 1 none 0
    ∷ set_item "b" 2 (some (pos 5)) 1
    ∷ get_item "a" 2
    ∷ set_item "c" 3 none 3
    ∷ get_item "a" 4
    ∷ get_item "b" 4
    ∷ delete_item "c"
    ∷ count_items
    ∷ []

lru_keeps_a :
    (run_ops lru (new_backend 0 (pos 2)) calls).1
    ≡ quiet ∷ quiet ∷ got (some 1) ∷ quiet ∷ got (some 1) ∷ got none ∷ quiet ∷ counted 1 ∷ []
unfolding run_ops new_backend run_op len_of lookup insert delete string_discrete add_node
    insert_node add_to_front write remove_node clear_links skip_prev skip_next evict_oldest
    delete_key drop_node expire_node set_value Lru.get Lru.set move_to_front
lru_keeps_a = refl

fifo_drops_a :
    (run_ops fifo (new_backend 0 (pos 2)) calls).1
    ≡ quiet ∷ quiet ∷ got (some 1) ∷ quiet ∷ got none ∷ got (some 2) ∷ quiet ∷ counted 1 ∷ []
unfolding run_ops new_backend run_op len_of lookup insert delete string_discrete add_node
    insert_node add_to_front write remove_node clear_links skip_prev skip_next evict_oldest
    delete_key drop_node expire_node set_value Fifo.get Fifo.set
fifo_drops_a = refl

lru_answers_example :
    (run_ops lru (new_backend 0 (pos 2)) calls).1
    ≡ (spec_ops lru (default_ℤ (pos 2) (pos 128)) [] calls).1
lru_answers_example = lru_answers 0 (pos 2) calls

fifo_answers_example :
    (run_ops fifo (new_backend 0 (pos 2)) calls).1
    ≡ (spec_ops fifo (default_ℤ (pos 2) (pos 128)) [] calls).1
fifo_answers_example = fifo_answers 0 (pos 2) calls

-- The first caller fetches 7 at time 12, to live for 10; the second asks at time 20.
abbrev fetching : Flight ℕ ℕ
fetching = record { ctx_err = none; looked_up = 11; returned = inl 7; stored = 12; ended = none }

abbrev asking : Flight ℕ ℕ
asking = record { ctx_err = none; looked_up = 20; returned = inr 1; stored = 21; ended = none }

-- Two entries: `b` has been used less than `a` when `c` comes.
abbrev used : LfuBackend ℕ
used =
    let c₁ = Lfu.set (new_lfu_backend 0 (pos 2)) "a" 1 none 0 in
    let c₂ = (Lfu.get c₁ "a" 1).0 in
    let c₃ = Lfu.set c₂ "b" 2 (some (pos 5)) 2 in Lfu.set c₃ "c" 3 none 3

lfu_drops_b :
    ((Lfu.get used "a" 4).1 ≡ some 1) × ((Lfu.get used "b" 4).1 ≡ none) × (len_counted used ≡ 2)
unfolding Lfu.get Lfu.set new_lfu_backend len_counted lookup insert delete string_discrete
    ℕ_discrete add_counted push_node Lfu.get_bucket push_front add_to_front write unlink remove_from
    remove_node clear_links skip_prev skip_next evict_min_freq pop_tail increment_freq ◌+ℤ◌ ◌-ℤ◌
lfu_drops_b = (refl, refl, refl)
