-- ===== src/Version/Order.antt =====
-- The order of versions.
use invofi.Prelude.{
  ℕ, String, ◌≡◌, ◌↔◌, Option, none, some, List, true, arith, ◌<◌, ◌⊎◌, inl, inr, Bool-cases,
}
use invofi.Prelude.Int.{ℤ, pos, ◌<ℤ◌, ◌-ℤ◌, ltb_ℤ_iff}
use invofi.Version.{
  SemVer, is_zero, compare_semvers, compare_tags, compare_versions, is_newer_version, parse_semver,
}

-- What the code relies on of `localeCompare`: exchanging the texts exchanges the sign.
abbrev pub IsAntisymmetric : (List ℕ → List ℕ → ℤ) → Type 0
IsAntisymmetric cmp = (s t : List ℕ) → (pos 0 <ℤ cmp s t) ↔ (cmp t s <ℤ pos 0)

-- `a` comes before `b` by tags: by the texts' order, and a tag before none.
abbrev pub TagBefore : (List ℕ → List ℕ → ℤ) → Option (List ℕ) → Option (List ℕ) → Type 0
TagBefore cmp (some s) (some t) = cmp s t <ℤ pos 0
TagBefore cmp (some s) none = Unit
TagBefore cmp none t = ⊥

-- `a` comes before `b`: by major, then by minor, then by patch, then by tag.
abbrev pub Before : (List ℕ → List ℕ → ℤ) → SemVer → SemVer → Type 0
Before cmp a b =
    (a.major < b.major)
    ⊎ ((a.major ≡ b.major)
        × ((a.minor < b.minor)
            ⊎ ((a.minor ≡ b.minor)
                × ((a.patch < b.patch)
                    ⊎ ((a.patch ≡ b.patch) × TagBefore cmp a.prerelease b.prerelease)))))

difference_lem :
    (x y : ℕ)
    → ((pos x -ℤ pos y <ℤ pos 0) ↔ (x < y))
      × ((pos 0 <ℤ pos x -ℤ pos y) ↔ (y < x))
      × ((is_zero (pos x -ℤ pos y) ≡ true) ↔ (x ≡ y))
unfolding ◌-ℤ◌
difference_lem x y = ground arith

compare_tags_lem :
    (cmp : List ℕ → List ℕ → ℤ)
    → IsAntisymmetric cmp
    → (s t : Option (List ℕ))
    → ((compare_tags cmp s t <ℤ pos 0) ↔ TagBefore cmp s t)
      × ((pos 0 <ℤ compare_tags cmp s t) ↔ TagBefore cmp t s)
compare_tags_lem cmp h none none = ground arith
compare_tags_lem cmp h none (some t) = ground arith
compare_tags_lem cmp h (some s) none = ground arith
compare_tags_lem cmp h (some s) (some t) = ground (arith, h s t)

compare_semvers-Before :
    (cmp : List ℕ → List ℕ → ℤ)
    → IsAntisymmetric cmp
    → (a b : SemVer)
    → ((compare_semvers cmp a b <ℤ pos 0) ↔ Before cmp a b)
      × ((pos 0 <ℤ compare_semvers cmp a b) ↔ Before cmp b a)
unfolding compare_semvers
compare_semvers-Before cmp h a b =
    let (tag_lt, tag_gt) = compare_tags_lem cmp h a.prerelease b.prerelease in
    let (major_lt, major_gt, major_eq) = difference_lem a.major b.major in
    let (minor_lt, minor_gt, minor_eq) = difference_lem a.minor b.minor in
    let (patch_lt, patch_gt, patch_eq) = difference_lem a.patch b.patch in
    elim (Bool-cases (is_zero (pos a.major -ℤ pos b.major))) [
      | inr ne ↦ ground arith
      | inl eq ↦ elim (Bool-cases (is_zero (pos a.minor -ℤ pos b.minor))) [
        | inr ne ↦ ground arith
        | inl eq' ↦ elim (Bool-cases (is_zero (pos a.patch -ℤ pos b.patch))) [
          | inr ne ↦ ground arith
          | inl eq'' ↦ ground arith
        ]
      ]
    ]

-- Of two versions that parse, the second is newer than the first exactly when the first comes
-- before the second: by major, then minor, then patch; with these the same, a pre-release comes
-- before the release, and two pre-releases are in the order of their tags, if `localeCompare` is
-- antisymmetric.
pub is_newer_version-Before :
    (cmp : List ℕ → List ℕ → ℤ)
    → IsAntisymmetric cmp
    → (a b : String) (va vb : SemVer) → parse_semver a ≡ some va
    → parse_semver b ≡ some vb
    → (is_newer_version cmp a b ≡ some true) ↔ Before cmp va vb
unfolding is_newer_version compare_versions
is_newer_version-Before cmp h a b va vb pa pb =
    ground
      (arith, (compare_semvers-Before cmp h vb va).1, ltb_ℤ_iff (pos 0) (compare_semvers cmp vb va))
