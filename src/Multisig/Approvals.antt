-- ===== src/Multisig/Approvals.antt =====
-- When a transaction needs several signatures, and when it has them.
use invofi.Prelude.{
  ℕ, ◌-◌, ◌≤◌, ◌≡◌, ◌≢◌, refl, ap, ◌∙◌, String, ◌||◌, true, Option, none, some, List, [], ◌∷◌, ◌++◌,
  length, map, max, leb, eq_iff, arith,
}
use invofi.Prelude.Int.{pos}
use invofi.Validation.{Currency}
use invofi.Amounts.{text, bigint, to_stroops_big_int, format_stroops}
use invofi.Amounts.Wire.{to_stroops_big_int-format_stroops}
use invofi.Multisig.{
  is_high_value, threshold_stroops, requires_multisig, TransactionApproval, includes_address,
  add_distinct, distinct, approval_progress, PendingTransactionStatus, pending, executed, rejected,
  expired, is_expired, effective_status,
}

-- An amount of stroops and the text in units that it is shown as need several signatures alike.
pub requires_multisig-format_stroops :
    (thresholds : Currency → Option ℕ) (n : ℕ) (currency : Currency)
    → requires_multisig thresholds (text (format_stroops (pos n) 7)) currency
      ≡ requires_multisig thresholds (bigint (pos n)) currency
unfolding requires_multisig to_stroops_big_int
requires_multisig-format_stroops thresholds n currency =
    ap (is_high_value (threshold_stroops thresholds currency)) (to_stroops_big_int-format_stroops n)

-- An address that is known, or occurs before, adds nothing.
add_distinct-append :
    (seen xs : List String) (a : String)
    → (includes_address a seen || includes_address a xs) ≡ true
    → add_distinct seen (xs ++ (a ∷ [])) ≡ add_distinct seen xs
unfolding add_distinct
add_distinct-append seen [] a h = ground arith
add_distinct-append seen (x ∷ xs) a h =
    ground (arith, eq_iff x a, add_distinct-append seen xs a, add_distinct-append (x ∷ seen) xs a)

abbrev pub addresses : List TransactionApproval → List String
addresses approvals = map (λ (a : TransactionApproval). a.approver_address) approvals

map-append :
    (xs : List TransactionApproval) (a : TransactionApproval)
    → addresses (xs ++ (a ∷ [])) ≡ addresses xs ++ (a.approver_address ∷ [])
map-append [] a = refl
map-append (x ∷ xs) a = ap (λ l. x.approver_address ∷ l) (map-append xs a)

-- Another approval by an address that has approved already changes nothing: one signer cannot meet
-- the threshold alone by signing again.
pub approval_progress-append :
    (required : ℕ) (approvals : List TransactionApproval) (again : TransactionApproval)
    → includes_address again.approver_address (addresses approvals) ≡ true
    → approval_progress required (approvals ++ (again ∷ [])) ≡ approval_progress required approvals
unfolding approval_progress
approval_progress-append required approvals again known =
    let same : distinct (addresses (approvals ++ (again ∷ []))) ≡ distinct (addresses approvals) =
      ap distinct (map-append approvals again)
      ∙ add_distinct-append [] (addresses approvals) again.approver_address known in
    ap
      (λ l. record {
        received = length l;
        required = max 1 required;
        remaining = max 1 required - length l;
        threshold_met = leb (max 1 required) (length l);
        approvers = l;
      })
      same

-- A request that does not read as pending at one time reads the same at any later time: what has
-- expired, or was executed or rejected, is never pending again.
pub effective_status-later :
    (status : PendingTransactionStatus) (deadline : Option ℕ) (now later : ℕ)
    → now ≤ later
    → effective_status status deadline now ≢ pending
    → effective_status status deadline later ≡ effective_status status deadline now
unfolding effective_status is_expired
effective_status-later executed deadline now later h settled = refl
effective_status-later rejected deadline now later h settled = refl
effective_status-later expired deadline now later h settled = refl
effective_status-later pending none now later h settled = refl
effective_status-later pending (some d) now later h settled = ground arith
