-- ===== src/Upgrade/Targets.antt =====
-- Which upgrade targets are safe.
use invofi.Prelude.{◌≤◌, String, ◌≡◌, ◌↔◌, some, true, arith}
use invofi.Version.{SemVer, parse_semver, semver_status}
use invofi.Version.Status.{status-semver_status}
use invofi.Upgrade.{UpgradeCheck, check_status, validate_upgrade_target}

check_status-safe :
    (from to : String) (a b : SemVer)
    → ((check_status from to (semver_status a b)).safe ≡ true)
      ↔ ((a.major ≡ b.major) × (a.minor ≤ b.minor))
unfolding check_status semver_status
check_status-safe from to a b = ground arith

-- Between two versions that parse, an upgrade is called safe exactly when the target has the same
-- major number and a minor number that is at least the current one; the table of known upgrades
-- makes no exception.
pub upgrade-safe_iff :
    (from to : String) (a b : SemVer)
    → parse_semver from ≡ some a
    → parse_semver to ≡ some b
    → (check : UpgradeCheck) × (validate_upgrade_target from to ≡ some check)
      × ((check.safe ≡ true) ↔ ((a.major ≡ b.major) × (a.minor ≤ b.minor)))
      × (check.compatibility ≡ semver_status a b)
unfolding validate_upgrade_target check_status semver_status
upgrade-safe_iff from to a b pa pb =
    let (e, found, _, st, _, _, _) = status-semver_status from to a b pa pb in
    (
      check_status from to (semver_status a b),
      ground arith,
      ground (arith, check_status-safe from to a b),
      ground arith,
    )
