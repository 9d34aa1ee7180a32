-- ===== src/Upgrade.antt =====
-- invofi/apps/sdk/src/upgrade.ts: migration and rollback plans, upgrade notifications and the check
-- of an upgrade's target. A call that throws, on a version that does not parse, gives `none`.
mod Tests
pub mod Notifications
pub mod Targets
pub mod Plans
use invofi.Prelude.{
  ℕ, String, Bool, true, false, Option, none, some, List, [], ◌∷◌, ◌++◌, str_eq, if◌then◌else◌,
}
use invofi.Prelude.Int.{ℤ}
use invofi.Version.{
  VersionedContract, CompatibilityStatus, compatible, minor_update, major_update, downgrade,
  CompatibilityEntry, lookup_compatibility, is_major_upgrade,
}
use Prim.Native.String.{◌++◌ as str_append}

pub data StepKind : Type 0 where
  pre_check migration upgrade post_check : StepKind

pub record MigrationStep : Type 0 where
  pub order : ℕ
  pub kind : StepKind
  pub description : String
  pub required : Bool
  pub estimated_duration : String

pub record RollbackPlan : Type 0 where
  pub from : String
  pub to : String
  pub steps : List MigrationStep

pub record MigrationPlan : Type 0 where
  pub from : String
  pub to : String
  pub steps : List MigrationStep
  pub rollback_plan : RollbackPlan

abbrev pub step : ℕ → StepKind → String → String → MigrationStep
step order kind description estimated_duration = record {
  order = order;
  kind = kind;
  description = description;
  required = true;
  estimated_duration = estimated_duration;
}

unfoldable pub plan_rollback : String → String → String → RollbackPlan
plan_rollback contract_id current_version target_version = record {
  from = current_version;
  to = target_version;
  steps =
      step 1 pre_check (str_append "Verify WASM for " (str_append target_version " is available"))
        "< 1 minute"
      ∷ step 2 upgrade
          (str_append "Re-deploy previous WASM ("
            (str_append target_version (str_append ") to contract " contract_id)))
          "2-3 minutes"
      ∷ step 3 migration "Restore storage snapshot from before the failed upgrade" "1-3 minutes"
      ∷ step 4 post_check (str_append "Verify contract is operational at version " target_version)
          "< 1 minute"
      ∷ [];
}

-- The steps that are pushed for each status; a downgrade has none.
unfoldable pub migration_steps : String → String → CompatibilityStatus → List MigrationStep
migration_steps current_version target_version downgrade = []
migration_steps current_version target_version compatible =
    step 1 upgrade
      (str_append "Direct upgrade from " (
        str_append current_version
          (str_append " to " (str_append target_version " (same major version)"))))
      "1-2 minutes"
    ∷ []
migration_steps current_version target_version minor_update =
    step 1 pre_check "Verify on-chain storage compatibility" "< 1 minute"
    ∷ step 2 upgrade (str_append "Deploy new WASM for " target_version) "2-3 minutes"
    ∷ step 3 post_check "Verify contract state after upgrade" "< 1 minute"
    ∷ []
migration_steps current_version target_version major_update =
    step 1 pre_check (str_append "Snapshot current storage for " current_version) "1-2 minutes"
    ∷ step 2 migration "Run storage migration (if storage layout changed)" "3-5 minutes"
    ∷ step 3 upgrade (str_append "Deploy new WASM for " target_version) "2-3 minutes"
    ∷ step 4 post_check "Verify migrated data and contract state" "1-2 minutes"
    ∷ step 5 post_check "Run integration smoke tests" "2-3 minutes"
    ∷ []

abbrev pub or_empty : Option String → String
or_empty none = ""
or_empty (some s) = s

-- For a downgrade the versions of the rollback plan are exchanged.
unfoldable pub rollback_for : String → String → Option String → CompatibilityStatus → RollbackPlan
rollback_for current_version target_version contract_id downgrade =
    plan_rollback (or_empty contract_id) target_version current_version
rollback_for current_version target_version contract_id _ =
    plan_rollback (or_empty contract_id) current_version target_version

unfoldable pub plan_migration : String → String → Option String → Option MigrationPlan
plan_migration current_version target_version contract_id =
    elim (lookup_compatibility current_version target_version) [
      | none ↦ none
      | some entry ↦ some (record {
        from = current_version;
        to = target_version;
        steps = migration_steps current_version target_version entry.status;
        rollback_plan = rollback_for current_version target_version contract_id entry.status;
      })
    ]

pub data Severity : Type 0 where
  info warning critical : Severity

pub record UpgradeNotification : Type 0 where
  pub contract_id : String
  pub current_version : String
  pub target_version : String
  pub severity : Severity
  pub message : String
  pub is_breaking : Bool
  pub created_at : ℕ

abbrev pub severity_of : Bool → CompatibilityStatus → Severity
severity_of true status = critical
severity_of false minor_update = info
severity_of false _ = warning

unfoldable pub notification_message : String → String → Bool → String
notification_message current target true =
    str_append "Breaking upgrade available: "
      (str_append current (str_append " → " (str_append target ". Migration required.")))
notification_message current target false =
    str_append "Upgrade available: "
      (str_append current (str_append " → " (str_append target ". Safe to upgrade.")))

-- What one contract adds to the list: nothing if no version is expected of it, or the expected
-- one. `now` is `Date.now()`.
unfoldable pub notify : ℕ → VersionedContract → Option String → Option (List UpgradeNotification)
notify now contract none = some []
notify now contract (some expected) =
    if str_eq expected ""
    then some []
    else (if str_eq contract.version expected
        then some []
        else elim (is_major_upgrade contract.version expected) [
          | none ↦ none
          | some is_breaking ↦ elim (lookup_compatibility contract.version expected) [
            | none ↦ none
            | some entry ↦ some (
                record {
                  contract_id = contract.contract_id;
                  current_version = contract.version;
                  target_version = expected;
                  severity = severity_of is_breaking entry.status;
                  message = notification_message contract.version expected is_breaking;
                  is_breaking = is_breaking;
                  created_at = now;
                }
                ∷ [])
          ]
        ])

-- `expected` is the record that the caller gives, as a lookup.
unfoldable pub generate_notifications :
    ℕ → (String → Option String) → List VersionedContract → Option (List UpgradeNotification)
generate_notifications now expected [] = some []
generate_notifications now expected (contract ∷ contracts) =
    let rest = generate_notifications now expected contracts in
    elim (notify now contract (expected contract.contract_id)) [
      | none ↦ none
      | some first ↦ elim rest [ none ↦ none | some others ↦ some (first ++ others) ]
    ]

pub record UpgradeCheck : Type 0 where
  pub safe : Bool
  pub reason : String
  pub compatibility : CompatibilityStatus

unfoldable pub check_status : String → String → CompatibilityStatus → UpgradeCheck
check_status current_version target_version downgrade = record {
  safe = false;
  reason = str_append "Target version " (
      str_append target_version (
        str_append " is older than current "
          (str_append current_version ". Use rollback instead.")));
  compatibility = downgrade;
}
check_status current_version target_version major_update = record {
  safe = false;
  reason =
      "Major version upgrade detected. This is a breaking change requiring migration. Ensure you have a rollback plan.";
  compatibility = major_update;
}
check_status current_version target_version minor_update = record {
  safe = true;
  reason = "Backward-compatible upgrade. No migration required.";
  compatibility = minor_update;
}
check_status current_version target_version compatible = record {
  safe = true;
  reason = "Same major version — safe to upgrade.";
  compatibility = compatible;
}

unfoldable pub validate_upgrade_target : String → String → Option UpgradeCheck
validate_upgrade_target current_version target_version =
    elim (lookup_compatibility current_version target_version) [
      | none ↦ none
      | some entry ↦ some (check_status current_version target_version entry.status)
    ]
