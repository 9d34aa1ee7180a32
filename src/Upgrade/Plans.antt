-- ===== src/Upgrade/Plans.antt =====
-- The steps of migration and rollback plans.
use invofi.Prelude.{ℕ, ◌+◌, ◌≡◌, true, List, [], ◌∷◌}
use invofi.Version.{CompatibilityStatus, compatible, minor_update, major_update, downgrade}
use invofi.Upgrade.{StepKind, pre_check, migration, upgrade, post_check, MigrationStep}

-- The steps are required, and their orders count up by one from after `n`.
abbrev pub IsNumbered : ℕ → List MigrationStep → Type 0
IsNumbered n [] = Unit
IsNumbered n (s ∷ ss) = (s.order ≡ n + 1) × (s.required ≡ true) × IsNumbered (n + 1) ss

-- The kinds of the steps for a status.
abbrev pub kinds_for : CompatibilityStatus → List StepKind
kinds_for compatible = upgrade ∷ []
kinds_for minor_update = pre_check ∷ upgrade ∷ post_check ∷ []
kinds_for major_update = pre_check ∷ migration ∷ upgrade ∷ post_check ∷ post_check ∷ []
kinds_for downgrade = []
