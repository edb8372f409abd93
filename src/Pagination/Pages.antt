-- ===== src/Pagination/Pages.antt =====
-- What the pagination helpers return.
use go_libs.Common.{
  wrap, wrap_small, word, int_limit, zero, leb, ◌∷◌, ap, sym, ltb→lt, length-drop, Bool-cases, inl,
  inr, ℕ, suc, ◌+◌, ◌-◌, ◌*◌, ◌≤◌, ◌<◌, ◌≡◌, ◌≤ℤ◌, ◌∙◌, refl, true, false, Option, some, none,
  String, List, [], ltb, ℤ, pos, negsuc, ◌+ℤ◌, length, take, drop, arith, leb_ℤ, ltb_ℤ,
}
use go_libs.Pagination.{
  Params, parse, parse_int_clamp, total_pages, slice, cut_page, page_count, paginate_slice,
}

clamped :
    (scan : String → Option ℤ) (s : String) (d hi : ℕ)
    → 1 ≤ d
    → d ≤ hi
    → (pos 1 ≤ℤ parse_int_clamp scan s (pos d) (pos 1) (pos hi))
      × (parse_int_clamp scan s (pos d) (pos 1) (pos hi) ≤ℤ pos hi)
unfolding parse_int_clamp
clamped scan s d hi a b = ground arith

-- Whatever the query says and whatever the scanner reads, `Parse` gives a page from 1 to 10000 and a limit
-- from 1 to 100.
parse_clamped :
    (scan : String → Option ℤ) (query : String → String)
    → let p : Params = parse scan query in
      (pos 1 ≤ℤ p.page) × (p.page ≤ℤ pos 10_000) × (pos 1 ≤ℤ p.limit) × (p.limit ≤ℤ pos 100)
unfolding parse
parse_clamped scan query =
    let page = clamped scan (query "page") 1 10_000 (omega arith) (omega arith) in
    let limit = clamped scan (query "limit") 20 100 (omega arith) (omega arith) in
    (page.0, page.1, limit.0, limit.1)

-- `TotalPages` is the number of pages that are needed: it is enough for all items, and one page less is
-- not. So for a positive total and limit its last page is not empty.
total_pages_enough :
    (total limit : ℕ)
    → 0 < total
    → 0 < limit
    → (total ≤ total_pages (pos total) (pos limit) * limit)
      × ((total_pages (pos total) (pos limit) - 1) * limit < total)
unfolding total_pages
total_pages_enough total limit a b = (grind arith, grind arith)

add_pos : (a b : ℕ) → pos a +ℤ pos b ≡ pos (a + b)
unfolding ◌+ℤ◌
add_pos a b = ground arith

stop_at :
    (start limit : ℕ)
    → start + limit < int_limit
    → wrap (pos start +ℤ pos limit) ≡ pos (start + limit)
stop_at start limit h = ap wrap (add_pos start limit) ∙ wrap_small (start + limit) h

take_all : {A : Type 0} (n : ℕ) (xs : List A) → length xs ≤ n → take n xs ≡ xs
take_all zero [] h = refl
take_all zero (x ∷ xs) h = absurd (omega arith)
take_all (suc n) [] h = refl
take_all (suc n) (x ∷ xs) h = ap (◌∷◌ x) (take_all n xs (omega arith))

last_page :
    {A : Type 0} (items : List A) (start limit : ℕ)
    → length items ≤ start + limit
    → take (length items - start) (drop start items) ≡ take limit (drop start items)
last_page items start limit h =
    take_all _ _ (omega (arith, length-drop start items))
    ∙ sym (take_all _ _ (omega (arith, length-drop start items)))

cut_inside :
    {A : Type 0} (items : List A) (page pages : ℤ) (start limit : ℕ)
    → start + limit < int_limit
    → start < length items
    → cut_page items page (pos limit) pages (pos start)
      ≡ some (
        take limit (drop start items),
        record {
          page = page;
          limit = pos limit;
          total = length items;
          total_pages = pages;
          has_more = ltb (start + limit) (length items);
        },
      )
unfolding cut_page slice
cut_inside items page pages start limit a c =
    let inside : leb_ℤ (pos (length items)) (pos start) ≡ false = ground arith in
    rw (stop_at start limit a) (
      rw inside (elim (Bool-cases (ltb_ℤ (pos (length items)) (pos (start + limit)))) [
        | inl over ↦
            let fits : leb start (length items) ≡ true = ground arith in
            let ends : ltb_ℤ (pos (length items)) (pos (length items)) ≡ false = ground arith in
            let none_left : ltb (start + limit) (length items) ≡ false = ground arith in
            let enough : length items ≤ start + limit = ground arith in
            rw over (rw (fits, ends, none_left) (rw (last_page items start limit enough) refl))
        | inr within ↦
            let fits : leb start (start + limit) ≡ true = ground arith in
            let size : start + limit - start ≡ limit = omega arith in
            rw within (rw (fits, size) (ground arith))
      ]))

cut_beyond :
    {A : Type 0} (items : List A) (page limit pages : ℤ) (start : ℕ)
    → length items ≤ start
    → cut_page items page limit pages (pos start)
      ≡ some (
        [],
        record {
          page = page;
          limit = limit;
          total = length items;
          total_pages = pages;
          has_more = false;
        },
      )
unfolding cut_page
cut_beyond items page limit pages start h =
    let beyond : leb_ℤ (pos (length items)) (pos start) ≡ true = ground arith in
    rw (beyond, cut_page) refl

drop_all : {A : Type 0} (n : ℕ) (xs : List A) → length xs ≤ n → drop n xs ≡ []
drop_all zero [] h = refl
drop_all zero (x ∷ xs) h = absurd (omega arith)
drop_all (suc n) [] h = refl
drop_all (suc n) (x ∷ xs) h = drop_all n xs (omega arith)

take_nothing : {A : Type 0} (n : ℕ) → take {A = A} n [] ≡ []
take_nothing zero = refl
take_nothing (suc n) = refl

cut_any :
    {A : Type 0} (items : List A) (page pages : ℤ) (start limit : ℕ)
    → start + limit < int_limit
    → cut_page items page (pos limit) pages (pos start)
      ≡ some (
        take limit (drop start items),
        record {
          page = page;
          limit = pos limit;
          total = length items;
          total_pages = pages;
          has_more = ltb (start + limit) (length items);
        },
      )
cut_any items page pages start limit a = elim (Bool-cases (ltb start (length items))) [
  | inl below ↦ cut_inside items page pages start limit a (ltb→lt _ _ below)
  | inr over ↦
      let beyond : length items ≤ start = ground arith in
      let last : ltb (start + limit) (length items) ≡ false = ground arith in
      cut_beyond items page (pos limit) pages start beyond
      ∙ rw (drop_all start items beyond, take_nothing {A = _} limit, last) refl
]

-- For a page and a limit from 1 on whose items end below 2^63, `PaginateSlice` does not panic: it
-- returns the items of that page, in order, with none beyond the last page, and `HasMore` tells
-- whether items follow.
pub paginate_slice_lem :
    {A : Type 0} (items : List A) (page limit : ℕ)
    → 0 < limit
    → page * limit + limit < int_limit
    → paginate_slice items (pos (suc page)) (pos limit)
      ≡ some (
        take limit (drop (page * limit) items),
        record {
          page = pos (suc page);
          limit = pos limit;
          total = length items;
          total_pages = page_count (length items) limit;
          has_more = ltb (page * limit + limit) (length items);
        },
      )
unfolding paginate_slice
paginate_slice_lem items page limit p h =
    let some_limit : leb_ℤ (pos limit) (pos 0) ≡ false = ground arith in
    let some_page : leb_ℤ (pos (suc page)) (pos 0) ≡ false = ground arith in
    let back : suc page - 1 ≡ page = omega arith in
    let start : wrap (pos (page * limit)) ≡ pos (page * limit) = wrap_small _ (omega arith) in
    rw (some_limit, some_page, back, start)
      (cut_any items (pos (suc page)) _ (page * limit) limit h)

cut_negative :
    {A : Type 0} (items : List A) (page limit pages : ℤ) (n : ℕ)
    → cut_page items page limit pages (negsuc n) ≡ none
unfolding cut_page slice
cut_negative items page limit pages n =
    let inside : leb_ℤ (pos (length items)) (negsuc n) ≡ false = ground arith in
    rw (inside, cut_page) refl

wrap_negative : (n : ℕ) → int_limit ≤ n → n < word → wrap (pos n) ≡ negsuc (word - n - 1)
unfolding wrap
wrap_negative n a b = ground arith

-- `PaginateSlice` panics on every slice for a page whose offset is from 2^63 up to 2^64: the product wraps to
-- a negative start, which the test on `start` lets through.
pub overflow_panics :
    {A : Type 0} (items : List A) (page limit : ℕ)
    → 0 < limit
    → int_limit ≤ page * limit
    → page * limit < word
    → paginate_slice items (pos (suc page)) (pos limit) ≡ none
unfolding paginate_slice
overflow_panics items page limit p a b =
    let some_limit : leb_ℤ (pos limit) (pos 0) ≡ false = ground arith in
    let some_page : leb_ℤ (pos (suc page)) (pos 0) ≡ false = ground arith in
    let back : suc page - 1 ≡ page = omega arith in
    rw (some_limit, some_page, back, wrap_negative (page * limit) a b) (cut_negative items _ _ _ _)
