-- ===== src/Version.antt =====
-- invofi/apps/sdk/src/version.ts: semantic versions, their order, and the compatibility of two
-- versions. `localeCompare` is a parameter. A call that throws gives `none`.
pub mod Status
pub mod Order
use invofi.Prelude.{
  ℕ, ◌+◌, ◌-◌, ◌*◌, String, Bool, true, false, not, ◌&&◌, ◌||◌, Option, none, some, List, [], ◌∷◌,
  map, all, ltb, ◌==◌, str_eq, if◌then◌else◌,
}
use invofi.Prelude.Int.{ℤ, pos, negsuc, ◌-ℤ◌, ltb_ℤ}
use invofi.Prelude.Text.{codes, is_digit, is_upper, is_lower}
use invofi.Validation.{split}
use Prim.Native.String.{◌++◌ as str_append}

-- The pre-release tag is kept as its code points.
pub record SemVer : Type 0 where
  pub major : ℕ
  pub minor : ℕ
  pub patch : ℕ
  pub prerelease : Option (List ℕ)

pub record VersionedContract : Type 0 where
  pub contract_id : String
  pub version : String

pub data CompatibilityStatus : Type 0 where
  compatible minor_update major_update downgrade : CompatibilityStatus

pub record CompatibilityEntry : Type 0 where
  pub from : String
  pub to : String
  pub status : CompatibilityStatus
  pub migration_required : Bool
  pub description : String

unfoldable pub compatibility_matrix : List CompatibilityEntry
compatibility_matrix =
    record {
      from = "0.1.0";
      to = "0.2.0";
      status = minor_update;
      migration_required = false;
      description = "Added position-token trustline support. No breaking changes.";
    }
    ∷ record {
      from = "0.2.0";
      to = "0.3.0";
      status = minor_update;
      migration_required = false;
      description = "Added overdue marking and reclaim. Backward-compatible.";
    }
    ∷ record {
      from = "0.3.0";
      to = "1.0.0";
      status = major_update;
      migration_required = true;
      description = "Stable release. Storage layout change for invoice status encoding.";
    }
    ∷ []

-- The longest run of digits at the front, and the rest.
unfoldable pub span_digits : List ℕ → List ℕ × List ℕ
span_digits [] = ([], [])
span_digits (c ∷ s) =
    let (ds, rest) = span_digits s in if is_digit c then (c ∷ ds, rest) else ([], c ∷ s)

-- `Number` of a run of digits, over the value of the digits before it.
unfoldable pub digits_value : ℕ → List ℕ → ℕ
digits_value n [] = n
digits_value n (c ∷ s) = digits_value (n * 10 + (c - b'0')) s

-- `0|[1-9]\d*`
unfoldable pub is_numeral : List ℕ → Bool
is_numeral [] = false
is_numeral (c ∷ []) = true
is_numeral (c ∷ d ∷ s) = not (c == b'0')

-- A numeral at the front, and what is after it.
unfoldable pub parse_number : List ℕ → Option (ℕ × List ℕ)
parse_number s =
    let (ds, rest) = span_digits s in if is_numeral ds then some (digits_value 0 ds, rest) else none

-- A numeral and the dot after it.
unfoldable pub parse_dotted : List ℕ → Option (ℕ × List ℕ)
parse_dotted s = elim (parse_number s) [
  | some (n, c ∷ rest) ↦ if c == b'.' then some (n, rest) else none
  | _ ↦ none
]

abbrev pub is_alphanumeric : ℕ → Bool
is_alphanumeric c = is_lower c || is_upper c || is_digit c

abbrev pub is_identifier : List ℕ → Bool
is_identifier [] = false
is_identifier (c ∷ s) = all is_alphanumeric (c ∷ s)

-- `(?:-([a-zA-Z0-9]+(?:\.[a-zA-Z0-9]+)*))?$`
unfoldable pub parse_prerelease : List ℕ → Option (Option (List ℕ))
parse_prerelease [] = some none
parse_prerelease (c ∷ s) =
    if c == b'-' && all is_identifier (split b'.' s) then some (some s) else none

unfoldable pub parse_semver_codes : List ℕ → Option SemVer
parse_semver_codes s = elim (parse_dotted s) [
  | none ↦ none
  | some (major, s₁) ↦ elim (parse_dotted s₁) [
    | none ↦ none
    | some (minor, s₂) ↦ elim (parse_number s₂) [
      | none ↦ none
      | some (patch, s₃) ↦ elim (parse_prerelease s₃) [
        | none ↦ none
        | some tag ↦ some (record { major = major; minor = minor; patch = patch; prerelease = tag })
      ]
    ]
  ]
]

abbrev pub parse_semver : String → Option SemVer
parse_semver version = parse_semver_codes (codes version)

-- The order of the versions' tags; a version without a tag comes after one with a tag.
abbrev pub compare_tags : (List ℕ → List ℕ → ℤ) → Option (List ℕ) → Option (List ℕ) → ℤ
compare_tags locale_compare none none = pos 0
compare_tags locale_compare (some s) none = negsuc 0
compare_tags locale_compare none (some t) = pos 1
compare_tags locale_compare (some s) (some t) = locale_compare s t

abbrev pub is_zero : ℤ → Bool
is_zero (pos n) = n == 0
is_zero (negsuc n) = false

-- The first of the differences that is not zero, or else the order of the tags.
unfoldable pub compare_semvers : (List ℕ → List ℕ → ℤ) → SemVer → SemVer → ℤ
compare_semvers locale_compare a b =
    let major = pos a.major -ℤ pos b.major in
    let minor = pos a.minor -ℤ pos b.minor in
    let patch = pos a.patch -ℤ pos b.patch in
    if not (is_zero major)
    then major
    else (if not (is_zero minor)
        then minor
        else (if not (is_zero patch)
            then patch
            else compare_tags locale_compare a.prerelease b.prerelease))

unfoldable pub compare_versions : (List ℕ → List ℕ → ℤ) → String → String → Option ℤ
compare_versions locale_compare a b = elim (parse_semver a) [
  | none ↦ none
  | some va ↦ elim (parse_semver b) [
    | none ↦ none
    | some vb ↦ some (compare_semvers locale_compare va vb)
  ]
]

unfoldable pub is_newer_version : (List ℕ → List ℕ → ℤ) → String → String → Option Bool
is_newer_version locale_compare current target =
    elim (compare_versions locale_compare target current) [
      | none ↦ none
      | some n ↦ some (ltb_ℤ (pos 0) n)
    ]

unfoldable pub is_major_upgrade : String → String → Option Bool
is_major_upgrade current target = elim (parse_semver current) [
  | none ↦ none
  | some a ↦ elim (parse_semver target) [ none ↦ none | some b ↦ some (not (a.major == b.major)) ]
]

unfoldable pub are_versions_compatible : String → String → Option Bool
are_versions_compatible a b = elim (parse_semver a) [
  | none ↦ none
  | some va ↦ elim (parse_semver b) [ none ↦ none | some vb ↦ some (va.major == vb.major) ]
]

-- `COMPATIBILITY_MATRIX.find(e => e.from === from && e.to === to)`
unfoldable pub find_entry : String → String → List CompatibilityEntry → Option CompatibilityEntry
find_entry from to [] = none
find_entry from to (e ∷ es) =
    let rest = find_entry from to es in
    if str_eq e.from from && str_eq e.to to then some e else rest

-- The heuristics on parsed versions.
unfoldable pub semver_status : SemVer → SemVer → CompatibilityStatus
semver_status a b =
    if ltb b.major a.major || (a.major == b.major && ltb b.minor a.minor)
    then downgrade
    else (if a.major == b.major && a.minor == b.minor
        then compatible
        else (if a.major == b.major then minor_update else major_update))

unfoldable pub get_compatibility_status : String → String → Option CompatibilityStatus
get_compatibility_status from to = elim (find_entry from to compatibility_matrix) [
  | some entry ↦ some entry.status
  | none ↦ elim (parse_semver from) [
    | none ↦ none
    | some a ↦ elim (parse_semver to) [ none ↦ none | some b ↦ some (semver_status a b) ]
  ]
]

unfoldable pub status_description : String → String → CompatibilityStatus → String
status_description from to compatible = "Same major version — no migration required."
status_description from to minor_update = "Same major version — backward-compatible changes."
status_description from to major_update =
    "Major version change — breaking changes likely; migration required."
status_description from to downgrade =
    str_append "Target version "
      (str_append to (str_append " is older than current " (str_append from ".")))

abbrev pub needs_migration : CompatibilityStatus → Bool
needs_migration major_update = true
needs_migration _ = false

unfoldable pub lookup_compatibility : String → String → Option CompatibilityEntry
lookup_compatibility from to = elim (find_entry from to compatibility_matrix) [
  | some entry ↦ some entry
  | none ↦ elim (get_compatibility_status from to) [
    | none ↦ none
    | some status ↦ some (record {
      from = from;
      to = to;
      status = status;
      migration_required = needs_migration status;
      description = status_description from to status;
    })
  ]
]
