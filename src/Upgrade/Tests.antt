-- ===== src/Upgrade/Tests.antt =====
-- Runs of version.ts and upgrade.ts, and instances of the theorems at them.
use invofi.Prelude.{
  ℕ, String, ◌≡◌, ◌↔◌, refl, true, Option, none, some, List, [], ◌∷◌, arith, if◌then◌else◌, str_eq,
}
use invofi.Prelude.Int.{ℤ, pos, negsuc}
use invofi.Validation.{split, add_char}
use invofi.Version.{
  SemVer, VersionedContract, CompatibilityEntry, parse_semver, parse_semver_codes, semver_status,
  get_compatibility_status, lookup_compatibility, needs_migration, is_newer_version, span_digits,
  digits_value, is_numeral, parse_number, parse_dotted, parse_prerelease,
}
use invofi.Version.Status.{status-semver_status}
use invofi.Version.Order.{IsAntisymmetric, Before, is_newer_version-Before}
use invofi.Upgrade.Notifications.{Parses}

abbrev version_at : ℕ → ℕ → ℕ → SemVer
version_at major minor patch = record {
  major = major;
  minor = minor;
  patch = patch;
  prerelease = none;
}

-- An order of texts by their lengths.
abbrev by_length : List ℕ → List ℕ → ℤ
by_length [] [] = pos 0
by_length [] (_ ∷ _) = negsuc 0
by_length (_ ∷ _) [] = pos 1
by_length (_ ∷ s) (_ ∷ t) = by_length s t

by_length-IsAntisymmetric : IsAntisymmetric by_length
by_length-IsAntisymmetric [] [] = ground arith
by_length-IsAntisymmetric [] (_ ∷ _) = ground arith
by_length-IsAntisymmetric (_ ∷ _) [] = ground arith
by_length-IsAntisymmetric (_ ∷ s) (_ ∷ t) = by_length-IsAntisymmetric s t

parse_tagged :
    parse_semver "1.20.3-beta.1"
    ≡ some (record {
      major = 1;
      minor = 20;
      patch = 3;
      prerelease = some (98 ∷ 101 ∷ 116 ∷ 97 ∷ 46 ∷ 49 ∷ []);
    })
unfolding parse_semver_codes span_digits digits_value is_numeral parse_number parse_dotted
    parse_prerelease split add_char
parse_tagged = refl

parse_refused :
    (parse_semver "1.02.3" ≡ none)
    × (parse_semver "1.2" ≡ none)
    × (parse_semver "1.2.3-" ≡ none)
    × (parse_semver "v1.2.3" ≡ none)
unfolding parse_semver_codes span_digits digits_value is_numeral parse_number parse_dotted
    parse_prerelease split
parse_refused = (refl, refl, refl, refl)

parse_0_3_0 : parse_semver "0.3.0" ≡ some (version_at 0 3 0)
unfolding parse_semver_codes span_digits digits_value is_numeral parse_number parse_dotted
    parse_prerelease
parse_0_3_0 = refl

parse_1_0_0 : parse_semver "1.0.0" ≡ some (version_at 1 0 0)
unfolding parse_semver_codes span_digits digits_value is_numeral parse_number parse_dotted
    parse_prerelease
parse_1_0_0 = refl

parse_0_2_5 : parse_semver "0.2.5" ≡ some (version_at 0 2 5)
unfolding parse_semver_codes span_digits digits_value is_numeral parse_number parse_dotted
    parse_prerelease
parse_0_2_5 = refl

status-semver_status_example :
    (e : CompatibilityEntry) × (lookup_compatibility "0.3.0" "1.0.0" ≡ some e)
    × (get_compatibility_status "0.3.0" "1.0.0" ≡ some e.status)
    × (e.status ≡ semver_status (version_at 0 3 0) (version_at 1 0 0))
    × (e.migration_required ≡ needs_migration e.status)
    × (e.from ≡ "0.3.0")
    × (e.to ≡ "1.0.0")
status-semver_status_example =
    status-semver_status "0.3.0" "1.0.0" (version_at 0 3 0) (version_at 1 0 0) parse_0_3_0
      parse_1_0_0

is_newer_version-Before_example :
    (is_newer_version by_length "0.2.5" "0.3.0" ≡ some true)
    ↔ Before by_length (version_at 0 2 5) (version_at 0 3 0)
is_newer_version-Before_example =
    is_newer_version-Before by_length by_length-IsAntisymmetric "0.2.5" "0.3.0" (version_at 0 2 5)
      (version_at 0 3 0) parse_0_2_5 parse_0_3_0

abbrev deployed : VersionedContract
deployed = record { contract_id = "C1"; version = "0.3.0" }

abbrev expected : String → Option String
expected id = if str_eq id "C1" then some "1.0.0" else none

deployed-Parses : Parses expected deployed
deployed-Parses = ((version_at 0 3 0, parse_0_3_0), (version_at 1 0 0, parse_1_0_0))
