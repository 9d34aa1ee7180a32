-- ===== src/Pagination/Tests.antt =====
-- Runs of the pagination, and an instance of the theorem at one.
use invofi.Prelude.{ℕ, ◌≡◌, refl, List, [], ◌∷◌, length, arith}
use invofi.Prelude.Int.{pos, negsuc}
use invofi.Pagination.{paginate, page_count_of, clamp_page, range_label}
use invofi.Pagination.Pages.{pages_from, pages-all}

abbrev items : List ℕ
items = 1 ∷ 2 ∷ 3 ∷ 4 ∷ 5 ∷ []

paginate_run :
    (paginate items (pos 9) 2 ≡ 5 ∷ [])
    × (paginate items (negsuc 3) 2 ≡ 1 ∷ 2 ∷ [])
    × (range_label (pos 2) 20 512 ≡ (21, 40))
unfolding paginate page_count_of clamp_page range_label
paginate_run = (refl, refl, refl)

pages-all_example : pages_from (page_count_of (length items) 2) 1 2 items ≡ items
pages-all_example = pages-all 2 items (omega arith)
