-- ===== src/Examples/Helpers.antt =====
-- pagination, sliceutil, maputil and rbac at concrete inputs.
use go_libs.Common.{
  ℕ, suc, ◌+◌, ◌-◌, ◌*◌, ◌≡◌, ◌↔◌, ◌⊎◌, refl, true, false, ◌||◌, none, some, Option, String, List,
  [], ◌∷◌, arith, pos, ltb, ℤ, length, take, drop, lookup, ℕ_discrete, str_eq,
}
use go_libs.Pagination.{page_count, paginate_slice}
use go_libs.Pagination.Pages.{paginate_slice_lem, overflow_panics}
use go_libs.SliceUtil.Groups.{last_value}
use go_libs.Rbac.{match_segments, match_parts, match_normal}
use go_libs.Rbac.Matching.{Permits, match_normal-Permits}

abbrev three : List ℕ
three = 10 ∷ 20 ∷ 30 ∷ []

abbrev fails : String → Option ℤ
fails s = none

abbrev text : String → String
text s = s

abbrev one_segment : String → List String
one_segment s = s ∷ []

abbrev even_or_odd : ℕ → ℕ
even_or_odd n = n - 15

paginate_slice_lem_example :
    paginate_slice three (pos (suc 1)) (pos 2)
    ≡ some (
      take 2 (drop (1 * 2) three),
      record {
        page = pos (suc 1);
        limit = pos 2;
        total = length three;
        total_pages = page_count (length three) 2;
        has_more = ltb (1 * 2 + 2) (length three);
      },
    )
paginate_slice_lem_example = paginate_slice_lem three 1 2 (omega arith) (omega arith)

overflow_panics_example : paginate_slice three (pos (suc 4_611_686_018_427_387_904)) (pos 3) ≡ none
overflow_panics_example =
    overflow_panics three 4_611_686_018_427_387_904 3 (omega arith) (omega arith) (omega arith)

abbrev two_maps : List (List (ℕ × ℕ))
two_maps = ((1, 10) ∷ []) ∷ ((1, 20) ∷ []) ∷ []

last_wins : last_value ℕ_discrete 1 two_maps ≡ some 20
unfolding last_value lookup ℕ_discrete
last_wins = refl

wildcard_tail : match_segments ("po" ∷ "*" ∷ []) ("po" ∷ "item" ∷ "create" ∷ []) ≡ true
unfolding match_segments match_parts
wildcard_tail = refl

match_normal-Permits_example :
    (match_normal one_segment "view" "view" ≡ true)
    ↔ ((str_eq "view" "" || str_eq "view" "") ≡ false)
      × (((str_eq "view" "*" || str_eq "view" "*:*" || str_eq "view" "view") ≡ true)
          ⊎ Permits (one_segment "view") (one_segment "view"))
match_normal-Permits_example = match_normal-Permits one_segment "view" "view"
