-- ===== src/Multisig/Tests.antt =====
-- Instances of the theorems at a request.
use invofi.Prelude.{ℕ, ◌≡◌, refl, Option, some, List, [], ◌∷◌, ◌++◌, String, true}
use invofi.Validation.{Currency, xlm, usdc}
use invofi.Multisig.{TransactionApproval, approval_progress, add_distinct}
use invofi.Multisig.Approvals.{approval_progress-append}

abbrev thresholds : Currency → Option ℕ
thresholds xlm = some 10000
thresholds usdc = some 1000

abbrev approval : String → TransactionApproval
approval address = record { approver_address = address; signature = "sig" }

abbrev approvals : List TransactionApproval
approvals = approval "G1" ∷ approval "G2" ∷ []

approval_progress-append_example :
    approval_progress 3 (approvals ++ (approval "G1" ∷ [])) ≡ approval_progress 3 approvals
approval_progress-append_example = approval_progress-append 3 approvals (approval "G1") refl

progress_run : approval_progress 2 (approvals ++ (approval "G1" ∷ [])) ≡ record {
  received = 2;
  required = 2;
  remaining = 0;
  threshold_met = true;
  approvers = "G1" ∷ "G2" ∷ [];
}
unfolding approval_progress add_distinct
progress_run = refl
