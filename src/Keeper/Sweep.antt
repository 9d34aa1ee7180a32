-- ===== src/Keeper/Sweep.antt =====
-- The sweep of the keeper: `runFullSweep`.
use invofi.Prelude.{
  ℕ, zero, suc, ◌+◌, Bool, false, ◌&&◌, ◌||◌, Option, none, some, List, [], ◌∷◌, length, ltb, ◌==◌,
  if◌then◌else◌,
}
use invofi.Prelude.Int.{ℤ, pos, ltb_ℤ}
use invofi.Keeper.{
  Task, return, after, ◌>>=◌, Chain, Config, InvoiceDetails, status_num, is_status, now_secs,
  mark_overdue, bump_ttl, read_invoice_page,
}

pub record Tally : Type 0 where
  pub scanned : ℕ
  pub marked : ℕ
  pub bumped : ℕ

abbrev pub count_scanned : ℕ → Tally → Tally
count_scanned n t = record { scanned = t.scanned + n; marked = t.marked; bumped = t.bumped }

abbrev pub count_marked : Tally → Bool → Tally
count_marked t marked = record {
  scanned = t.scanned;
  marked = t.marked + (if marked then 1 else 0);
  bumped = t.bumped;
}

abbrev pub count_bumped : Tally → Bool → Tally
count_bumped t bumped = record {
  scanned = t.scanned;
  marked = t.marked;
  bumped = t.bumped + (if bumped then 1 else 0);
}

-- `Number(undefined) < now` is false.
abbrev pub is_past : Option ℤ → ℕ → Bool
is_past none now = false
is_past (some due) now = ltb_ℤ due (pos now)

abbrev pub is_active : ℤ → Bool
is_active status = is_status status 0 || is_status status 1

module _ {W S N X : Type 0} (config : Config) (chain : Chain W S N X) where
  unfoldable pub mark_if_overdue : ℕ → InvoiceDetails → Tally → Task W Tally
  mark_if_overdue now inv t =
      if is_status (status_num inv.status) 1 && is_past inv.due_date now
      then (mark_overdue chain inv.id >>= λ marked. return (count_marked t marked))
      else return t

  unfoldable pub bump_if_active : InvoiceDetails → Tally → Task W Tally
  bump_if_active inv t =
      if is_active (status_num inv.status) && ltb t.bumped config.max_ttl_bumps
      then (bump_ttl chain inv.id >>= λ bumped. return (count_bumped t bumped))
      else return t

  unfoldable pub sweep_invoice : ℕ → InvoiceDetails → Tally → Task W Tally
  sweep_invoice now inv t = mark_if_overdue now inv t >>= bump_if_active inv

  -- The body of the loop over a page.
  unfoldable pub sweep_page : ℕ → List InvoiceDetails → Tally → Task W Tally
  sweep_page now [] t = return t
  sweep_page now (inv ∷ page) t = sweep_invoice now inv t >>= sweep_page now page

  -- The body of the loop over the pages, before the rest of the loop.
  unfoldable pub page_step : List InvoiceDetails → (Tally → Task W Tally) → Tally → Task W Tally
  page_step page next t = if length page == 0 then return t else (λ w.
      after (sweep_page (now_secs chain w) page (count_scanned (length page) t) w)
        (λ t'. if ltb (length page) config.page_size then return t' else next t'))

  -- The loop over the pages, with the number of pages that are left of MAX_PAGES.
  unfoldable pub sweep_pages : ℕ → ℕ → Tally → Task W Tally
  sweep_pages zero offset t = return t
  sweep_pages (suc left) offset t = read_invoice_page chain config offset >>= λ page.
      page_step page (sweep_pages left (offset + length page)) t

  unfoldable pub run_full_sweep : Task W Tally
  run_full_sweep = sweep_pages config.max_pages 0 (record { scanned = 0; marked = 0; bumped = 0 })
