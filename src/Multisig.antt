-- ===== src/Multisig.antt =====
-- invofi/apps/frontend/src/lib/multisig.ts, the threshold, the progress of approvals and the expiry.
-- The thresholds of constants.ts are a parameter, and a deadline is the time that `Date.parse` gives,
-- in milliseconds, or none. The ratio of the progress bar and
-- the fields of the database's rows that are not read are left out.
pub mod Approvals
mod Tests
use invofi.Prelude.{
  ℕ, ◌-◌, ◌/◌, String, Bool, true, false, Option, none, some, List, [], ◌∷◌, length, map, max, ltb,
  leb, str_eq, if◌then◌else◌,
}
use invofi.Prelude.Int.{ℤ, ltb_ℤ}
use invofi.Validation.{Currency}
use invofi.Amounts.{Amount, amount_to_stroops, to_stroops_big_int}
use invofi.Amounts.Decimal.{to_decimal}

-- `MULTISIG_THRESHOLDS[currency] ?? 0`
abbrev pub threshold_of : Option ℕ → ℕ
threshold_of none = 0
threshold_of (some n) = n

unfoldable pub threshold_stroops : (Currency → Option ℕ) → Currency → Option ℤ
threshold_stroops thresholds currency =
    amount_to_stroops (to_decimal (threshold_of (thresholds currency))) 7

-- A malformed amount is not of high value; a malformed threshold throws.
abbrev pub is_high_value : Option ℤ → Option ℤ → Option Bool
is_high_value threshold none = some false
is_high_value none (some stroops) = none
is_high_value (some threshold) (some stroops) = some (ltb_ℤ threshold stroops)

unfoldable pub requires_multisig : (Currency → Option ℕ) → Amount → Currency → Option Bool
requires_multisig thresholds amount currency =
    is_high_value (threshold_stroops thresholds currency) (to_stroops_big_int amount)

pub record TransactionApproval : Type 0 where
  pub approver_address : String
  pub signature : String

pub record ApprovalProgress : Type 0 where
  pub received : ℕ
  pub required : ℕ
  pub remaining : ℕ
  pub threshold_met : Bool
  pub approvers : List String

abbrev pub includes_address : String → List String → Bool
includes_address a [] = false
includes_address a (b ∷ bs) = let rest = includes_address a bs in if str_eq b a then true else rest

-- `new Set(addresses)` in the order of first occurrence, over the addresses that are in it.
unfoldable pub add_distinct : List String → List String → List String
add_distinct seen [] = []
add_distinct seen (a ∷ addresses) =
    let old = add_distinct seen addresses in
    let new = add_distinct (a ∷ seen) addresses in if includes_address a seen then old else a ∷ new

abbrev pub distinct : List String → List String
distinct addresses = add_distinct [] addresses

unfoldable pub approval_progress : ℕ → List TransactionApproval → ApprovalProgress
approval_progress required_signatures approvals =
    let approvers = distinct (map (λ (a : TransactionApproval). a.approver_address) approvals) in
    let required = max 1 required_signatures in
    record {
      received = length approvers;
      required = required;
      remaining = required - length approvers;
      threshold_met = leb required (length approvers);
      approvers = approvers;
    }

pub data PendingTransactionStatus : Type 0 where
  pending executed rejected expired : PendingTransactionStatus

unfoldable pub is_expired : Option ℕ → ℕ → Bool
is_expired none now = false
is_expired (some deadline) now = leb deadline now

unfoldable pub seconds_until_expiry : Option ℕ → ℕ → ℕ
seconds_until_expiry none now = 0
seconds_until_expiry (some deadline) now = (deadline - now) / 1000

unfoldable pub effective_status : PendingTransactionStatus → Option ℕ → ℕ → PendingTransactionStatus
effective_status executed deadline now = executed
effective_status rejected deadline now = rejected
effective_status expired deadline now = expired
effective_status pending deadline now = if is_expired deadline now then expired else pending
