-- ===== src/Pagination.antt =====
-- invofi/apps/frontend/src/lib/pagination.ts: the pages of a list. A page number is an
-- integer, which may be zero or negative; a page size is a natural number.
pub mod Pages
mod Tests
use invofi.Prelude.{
  ℕ, ◌+◌, ◌-◌, ◌*◌, ◌/◌, min, max, Bool, ◌||◌, List, [], ◌∷◌, length, take, drop, ◌==◌,
  if◌then◌else◌,
}
use invofi.Prelude.Int.{ℤ, pos, negsuc}

-- A number that is not positive counts as 0.
abbrev pub positive : ℤ → ℕ
positive (pos n) = n
positive (negsuc n) = 0

-- `Math.ceil(total / pageSize)`
unfoldable pub page_count_of : ℕ → ℕ → ℕ
page_count_of total page_size =
    if total == 0 || page_size == 0 then 0 else (total + (page_size - 1)) / page_size

unfoldable pub clamp_page : ℤ → ℕ → ℕ → ℕ
clamp_page page total page_size =
    let page_count = page_count_of total page_size in
    if page_count == 0 then 1 else min (max 1 (positive page)) page_count

-- `items.slice(start, end)`
abbrev pub slice {ℓ} : {A : Type ℓ} → ℕ → ℕ → List A → List A
slice start end items = take (end - start) (drop start items)

unfoldable pub paginate {ℓ} : {A : Type ℓ} → List A → ℤ → ℕ → List A
paginate items page page_size =
    let start = (clamp_page page (length items) page_size - 1) * page_size in
    if length items == 0 || page_size == 0 then [] else slice start (start + page_size) items

-- The first and the last number of the label "1–20 of 512"; both are 0 of an empty list.
unfoldable pub range_label : ℤ → ℕ → ℕ → ℕ × ℕ
range_label page page_size total =
    let clamped = clamp_page page total page_size in
    if total == 0 then (0, 0) else ((clamped - 1) * page_size + 1, min (clamped * page_size) total)
