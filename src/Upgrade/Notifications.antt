-- ===== src/Upgrade/Notifications.antt =====
-- Which contracts are announced for an upgrade, and how.
use invofi.Prelude.{
  ℕ, ◌<◌, String, ◌≡◌, ◌≢◌, ◌↔◌, ◌⊎◌, refl, subst, ap, ◌∙◌, Bool, not, ◌&&◌, true, false, Option,
  none, some, List, [], ◌∷◌, All, map, filterb, arith, str_eq, ◌==◌, eq_iff, Bool-cases,
  Option-cases, inl, inr,
}
use invofi.Version.{
  SemVer, VersionedContract, parse_semver, downgrade, semver_status, is_major_upgrade,
}
use invofi.Version.Status.{status-semver_status}
use invofi.Upgrade.{
  info, warning, critical, severity_of, UpgradeNotification, notify, notification_message,
  generate_notifications, UpgradeCheck, check_status, validate_upgrade_target,
}

-- The contract is expected to be at some other version.
abbrev pub is_outdated : (String → Option String) → VersionedContract → Bool
is_outdated expected contract = elim (expected contract.contract_id) [
  | none ↦ false
  | some version ↦ not (str_eq version "") && not (str_eq contract.version version)
]

abbrev pub ParsesIfAny : Option String → Type 0
ParsesIfAny none = Unit
ParsesIfAny (some version) = (b : SemVer) × (parse_semver version ≡ some b)

-- The contract's version parses, and so does the one that is expected of it, if any.
abbrev pub Parses : (String → Option String) → VersionedContract → Type 0
Parses expected contract =
    ((a : SemVer) × (parse_semver contract.version ≡ some a))
    × ParsesIfAny (expected contract.contract_id)

-- A notification calls an upgrade breaking, and critical, exactly when the major numbers differ, and
-- an information exactly when only a later minor number is proposed.
abbrev pub IsGraded : UpgradeNotification → Type 0
IsGraded n =
    (a : SemVer) × (b : SemVer) × (parse_semver n.current_version ≡ some a)
    × (parse_semver n.target_version ≡ some b)
    × ((n.is_breaking ≡ true) ↔ (a.major ≢ b.major))
    × ((n.severity ≡ critical) ↔ (a.major ≢ b.major))
    × ((n.severity ≡ info) ↔ ((a.major ≡ b.major) × (a.minor < b.minor)))

-- The notification of an outdated contract.
abbrev graded : ℕ → VersionedContract → String → SemVer → SemVer → UpgradeNotification
graded now contract version a b =
    let breaking = not (a.major == b.major) in
    record {
      contract_id = contract.contract_id;
      current_version = contract.version;
      target_version = version;
      severity = severity_of breaking (semver_status a b);
      message = notification_message contract.version version breaking;
      is_breaking = breaking;
      created_at = now;
    }

notify-graded :
    (now : ℕ) (contract : VersionedContract) (version : String) (a b : SemVer)
    → parse_semver contract.version ≡ some a
    → parse_semver version ≡ some b
    → version ≢ ""
    → contract.version ≢ version
    → notify now contract (some version) ≡ some (graded now contract version a b ∷ [])
unfolding notify is_major_upgrade
notify-graded now contract version a b pa pb ne new =
    let (e, found, _, st, _, _, _) = status-semver_status contract.version version a b pa pb in
    ground (arith, eq_iff version "", eq_iff contract.version version)

graded-IsGraded :
    (now : ℕ) (contract : VersionedContract) (version : String) (a b : SemVer)
    → parse_semver contract.version ≡ some a
    → parse_semver version ≡ some b
    → IsGraded (graded now contract version a b)
unfolding semver_status
graded-IsGraded now contract version a b pa pb =
    (a, b, pa, pb, ground arith, ground arith, ground arith)

nothing_expected : (now : ℕ) (contract : VersionedContract) → notify now contract none ≡ some []
unfolding notify
nothing_expected now contract = refl

nothing_new :
    (now : ℕ) (contract : VersionedContract) (version : String)
    → (not (str_eq version "") && not (str_eq contract.version version)) ≡ false
    → notify now contract (some version) ≡ some []
unfolding notify
nothing_new now contract version h = elim (Bool-cases (str_eq version "")) [
  | inl e ↦ rw e
  | inr e ↦ elim (Bool-cases (str_eq contract.version version)) [
    | inl f ↦ rw (e, f)
    | inr f ↦ absurd (ground arith)
  ]
]

-- One contract: nothing if it is up to date, or else one graded notification.
notify-cases :
    (now : ℕ) (expected : String → Option String) (contract : VersionedContract)
    → Parses expected contract
    → ((is_outdated expected contract ≡ false)
        × (notify now contract (expected contract.contract_id) ≡ some []))
      ⊎ ((is_outdated expected contract ≡ true)
          × ((n : UpgradeNotification) × (notify now contract (expected contract.contract_id)
                ≡ some (n ∷ []))
              × (n.contract_id ≡ contract.contract_id)
              × IsGraded n))
notify-cases now expected contract ((a, pa), parsed) =
    elim (Option-cases (expected contract.contract_id)) [
      | inl absent ↦
          inl (ground arith, ap (notify now contract) absent ∙ nothing_expected now contract)
      | inr (version, present) ↦
          let (b, pb) = subst ParsesIfAny present parsed in
          elim (Bool-cases (is_outdated expected contract)) [
            | inr current ↦ inl (
              current,
              ap (notify now contract) present ∙ nothing_new now contract version (ground arith),
            )
            | inl outdated ↦ inr (
              outdated,
              (
                graded now contract version a b,
                ap (notify now contract) present
                    ∙ notify-graded now contract version a b pa pb
                        (ground (arith, eq_iff version ""))
                        (ground (arith, eq_iff contract.version version)),
                refl,
                graded-IsGraded now contract version a b pa pb,
              ),
            )
          ]
    ]

-- If the versions of the contracts, and those that are expected of them, parse, the notifications
-- are those of exactly the contracts that are expected to be at some other version, one each and in
-- order. An upgrade is called breaking and critical exactly when the major numbers differ, and is
-- an information exactly when only a later minor number is proposed.
pub generate_notifications-IsGraded :
    (now : ℕ) (expected : String → Option String) (contracts : List VersionedContract)
    → All (Parses expected) contracts
    → (ns : List UpgradeNotification) × (generate_notifications now expected contracts ≡ some ns)
      × (map (λ (n : UpgradeNotification). n.contract_id) ns
          ≡ map
              (λ (c : VersionedContract). c.contract_id)
              (filterb (is_outdated expected) contracts))
      × All IsGraded ns
unfolding generate_notifications
generate_notifications-IsGraded now expected [] h = ([], refl, refl, tt)
generate_notifications-IsGraded now expected (contract ∷ contracts) (p, h) =
    let (ns, e, ids, good) = generate_notifications-IsGraded now expected contracts h in
    elim (notify-cases now expected contract p) [
      | inl (current, f) ↦ (ns, ground arith, ground arith, good)
      | inr (outdated, (n, f, same, g)) ↦
          (n ∷ ns, ground arith, rw outdated (ground arith), (g, good))
    ]

-- A contract that is expected to be at an earlier minor version of the same major number gets a
-- notification that calls the change an upgrade that is safe, while the check of the same two
-- versions calls it a downgrade that is not safe.
pub downgrade_called_safe :
    (now : ℕ) (contract : VersionedContract) (version : String) (a b : SemVer)
    → parse_semver contract.version ≡ some a
    → parse_semver version ≡ some b
    → version ≢ ""
    → contract.version ≢ version
    → a.major ≡ b.major
    → b.minor < a.minor
    → (n : UpgradeNotification) × (notify now contract (some version) ≡ some (n ∷ []))
      × (n.message ≡ notification_message contract.version version false)
      × (n.severity ≡ warning)
      × (check : UpgradeCheck) × (validate_upgrade_target contract.version version ≡ some check)
      × (check.safe ≡ false)
      × (check.compatibility ≡ downgrade)
unfolding validate_upgrade_target check_status semver_status
downgrade_called_safe now contract version a b pa pb ne new same older =
    let (e, found, _, st, _, _, _) = status-semver_status contract.version version a b pa pb in
    (
      graded now contract version a b,
      notify-graded now contract version a b pa pb ne new,
      ground arith,
      ground arith,
      check_status contract.version version downgrade,
      ground arith,
      refl,
      refl,
    )
