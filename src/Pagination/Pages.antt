-- ===== src/Pagination/Pages.antt =====
-- The pages of a list are the list.
use invofi.Prelude.{
  ℕ, zero, suc, ◌+◌, ◌-◌, ◌*◌, ◌≤◌, ◌≡◌, refl, sym, ap, ◌∙◌, List, [], ◌∷◌, ◌++◌, length, take,
  drop, arith,
}
use invofi.Prelude.Int.{pos}
use invofi.Pagination.{page_count_of, clamp_page, paginate}
use mathlib.Core.Path.{ap₂}
use native.Mathlib.Nat.{lt-mul-div-succ}

module _ {ℓ} {A : Type ℓ} where
  take_nil : (n : ℕ) → take {A = A} n [] ≡ []
  take_nil zero = refl
  take_nil (suc n) = refl

  drop_nil : (n : ℕ) → drop {A = A} n [] ≡ []
  drop_nil zero = refl
  drop_nil (suc n) = refl

  take_add : (a b : ℕ) (xs : List A) → take (a + b) xs ≡ take a xs ++ take b (drop a xs)
  take_add zero b xs = ap (λ n. take n xs) (let e : 0 + b ≡ b = omega arith in e)
  take_add (suc a) b [] = take_nil (suc a + b) ∙ sym (take_nil b)
  take_add (suc a) b (x ∷ xs) =
      ap (λ n. take n (x ∷ xs)) (let e : suc a + b ≡ suc (a + b) = omega arith in e)
      ∙ ap (λ r. x ∷ r) (take_add a b xs)

  pub drop_add : (a b : ℕ) (xs : List A) → drop (a + b) xs ≡ drop b (drop a xs)
  drop_add zero b xs = ap (λ n. drop n xs) (let e : 0 + b ≡ b = omega arith in e)
  drop_add (suc a) b [] = drop_nil (suc a + b) ∙ sym (drop_nil b)
  drop_add (suc a) b (x ∷ xs) =
      ap (λ n. drop n (x ∷ xs)) (let e : suc a + b ≡ suc (a + b) = omega arith in e)
      ∙ drop_add a b xs

  pub take_all : (n : ℕ) (xs : List A) → length xs ≤ n → take n xs ≡ xs
  take_all zero [] h = refl
  take_all zero (x ∷ xs) h = absurd (omega arith)
  take_all (suc n) [] h = refl
  take_all (suc n) (x ∷ xs) h = ap (λ r. x ∷ r) (take_all n xs (omega arith))

  -- The pages from `page` on, `n` of them.
  unfoldable pub pages_from : ℕ → ℕ → ℕ → List A → List A
  pages_from zero page size items = []
  pages_from (suc n) page size items =
      paginate items (pos page) size ++ pages_from n (page + 1) size items

page_count_pos : (total size : ℕ) → 1 ≤ page_count_of total size → 1 ≤ total
unfolding page_count_of
page_count_pos total size h = ground arith

times_suc : (n s : ℕ) → suc n * s ≡ s + n * s
times_suc n s = omega arith

module _ {ℓ} {A : Type ℓ} (size : ℕ) (items : List A) (full : 1 ≤ size) where
  page_lem :
      (i : ℕ)
      → i + 1 ≤ page_count_of (length items) size
      → paginate items (pos (i + 1)) size ≡ take size (drop (i * size) items)
  unfolding paginate clamp_page
  page_lem i h =
      let some_items : 1 ≤ length items = page_count_pos (length items) size (omega (arith, h)) in
      let clamped : clamp_page (pos (i + 1)) (length items) size ≡ i + 1 = ground arith in
      let k = (clamp_page (pos (i + 1)) (length items) size - 1) * size in
      let start : k ≡ i * size =
        ap (λ c. (c - 1) * size) clamped
        ∙ ap (λ c. c * size) (let e : i + 1 - 1 ≡ i = omega arith in e) in
      let page : paginate items (pos (i + 1)) size ≡ take (k + size - k) (drop k items) =
        ground arith in
      page
      ∙ ap (λ n. take n (drop k items)) (let e : k + size - k ≡ size = omega arith in e)
      ∙ ap (λ j. take size (drop j items)) start

  pages_lem :
      (n i : ℕ)
      → i + n ≤ page_count_of (length items) size
      → pages_from n (i + 1) size items ≡ take (n * size) (drop (i * size) items)
  unfolding pages_from
  pages_lem zero i h =
      ap (λ k. take k (drop (i * size) items)) (let e : 0 ≡ 0 * size = omega arith in e)
  pages_lem (suc n) i h =
      ap₂ (λ xs ys. xs ++ ys) (page_lem i (omega (arith, h)))
        (pages_lem n (i + 1) (omega (arith, h)))
      ∙ ap (λ xs. take size (drop (i * size) items) ++ take (n * size) xs)
          (ap (λ j. drop j items) (let e : (i + 1) * size ≡ i * size + size = omega arith in e)
            ∙ drop_add (i * size) size items)
      ∙ sym (take_add size (n * size) (drop (i * size) items))
      ∙ ap (λ m. take m (drop (i * size) items)) (sym (times_suc n size))

  covers : length items ≤ page_count_of (length items) size * size
  unfolding page_count_of
  covers = let b = lt-mul-div-succ (length items + (size - 1)) full in ground arith

-- The pages of a list, from the first to the last and each of at least one item, are together the
-- list: no item is lost, repeated or moved.
pub pages-all {ℓ} :
    {A : Type ℓ} (size : ℕ) (items : List A)
    → 1 ≤ size
    → pages_from (page_count_of (length items) size) 1 size items ≡ items
pages-all size items full =
    pages_lem size items full (page_count_of (length items) size) 0 (omega arith)
    ∙ ap (λ j. take (page_count_of (length items) size * size) (drop j items))
        (let e : 0 * size ≡ 0 = omega arith in e)
    ∙ take_all _ items (covers size items full)
