-- ===== src/Indexer/Reset.antt =====
-- What a run keeps of the row that the run before it wrote.
use invofi.Prelude.{ℕ, ◌≤◌, ◌≡◌, refl, false, some, ltb, max, arith}
use invofi.Prelude.Map.{get}
use invofi.Prelude.Result.{ok}
use invofi.Indexer.{
  Replayed, empty_aggregates, Server, Window, OnChain, ProtocolStats, replay, stats_row,
  run_indexer,
}

-- A run that finds no new ledger keeps the last ledger, and sets the financed and the defaulted
-- invoices and the active lenders to zero, whatever they were: what earlier runs counted is lost.
pub run_indexer-caught_up :
    (window : Window) (server : Server) (onchain : OnChain) (prev : ProtocolStats) (latest : ℕ)
    → latest ≤ prev.last_ledger
    → (row : ProtocolStats) × (run_indexer window server onchain (some prev) latest ≡ ok row)
      × (row.last_ledger ≡ prev.last_ledger)
      × (row.invoices_financed ≡ 0)
      × (row.defaulted_invoices ≡ 0)
      × (row.active_lenders ≡ 0)
unfolding run_indexer replay stats_row get
run_indexer-caught_up window server onchain prev latest caught_up =
    let begin : Replayed = record {
      aggregates = empty_aggregates;
      last_processed_ledger = prev.last_ledger;
    } in
    let idle : ltb prev.last_ledger latest ≡ false = ground (arith, caught_up) in
    let same : max prev.last_ledger prev.last_ledger ≡ prev.last_ledger = omega arith in
    (stats_row onchain prev.last_ledger begin, rw idle refl, same, refl, refl, refl)
