-- ===== src/Version/Status.antt =====
-- The compatibility of two versions that parse.
use invofi.Prelude.{
  String, ◌≡◌, refl, inl, inr, some, List, [], ◌∷◌, arith, eq_iff, Bool-cases, str_eq, All, ◌&&◌,
  subst, Option-cases,
}
use invofi.Version.{
  status_description, SemVer, CompatibilityEntry, compatibility_matrix, parse_semver,
  parse_semver_codes, find_entry, semver_status, get_compatibility_status, lookup_compatibility,
  needs_migration, span_digits, digits_value, is_numeral, parse_number, parse_dotted,
  parse_prerelease,
}

-- An entry whose status and migration flag are those of the heuristics.
abbrev pub IsHeuristic : CompatibilityEntry → Type 0
IsHeuristic e =
    (a : SemVer) × (b : SemVer) × (parse_semver e.from ≡ some a)
    × (parse_semver e.to ≡ some b)
    × (e.status ≡ semver_status a b)
    × (e.migration_required ≡ needs_migration e.status)

matrix-IsHeuristic : All IsHeuristic compatibility_matrix
unfolding compatibility_matrix parse_semver_codes semver_status span_digits digits_value is_numeral
    parse_number parse_dotted parse_prerelease
matrix-IsHeuristic = (
  (_, _, refl, refl, refl, refl),
  ((_, _, refl, refl, refl, refl), ((_, _, refl, refl, refl, refl), tt)),
)

-- What `find` gives is an element at the two versions.
find_entry-lem :
    (P : CompatibilityEntry → Type 0) (from to : String) (es : List CompatibilityEntry)
    (e : CompatibilityEntry)
    → All P es
    → find_entry from to es ≡ some e
    → P e × (e.from ≡ from) × (e.to ≡ to)
unfolding find_entry
find_entry-lem P from to [] e h f = absurd (ground arith)
find_entry-lem P from to (d ∷ es) e h f = elim (Bool-cases (str_eq d.from from && str_eq d.to to)) [
  | inl hit ↦
      let same : d ≡ e = ground arith in
      subst (λ e. P e × (e.from ≡ from) × (e.to ≡ to)) same
        (h.0, ground (arith, eq_iff d.from from), ground (arith, eq_iff d.to to))
  | inr miss ↦ find_entry-lem P from to es e h.1 (ground arith)
]

-- The table of known upgrades never contradicts the rule: between two versions that parse, listed
-- in the table or not, the status is the one that the rule on major and minor numbers gives, and a
-- migration is required exactly for a major update.
pub status-semver_status :
    (from to : String) (a b : SemVer)
    → parse_semver from ≡ some a
    → parse_semver to ≡ some b
    → (e : CompatibilityEntry) × (lookup_compatibility from to ≡ some e)
      × (get_compatibility_status from to ≡ some e.status)
      × (e.status ≡ semver_status a b)
      × (e.migration_required ≡ needs_migration e.status)
      × (e.from ≡ from)
      × (e.to ≡ to)
unfolding lookup_compatibility get_compatibility_status
status-semver_status from to a b pa pb =
    elim (Option-cases (find_entry from to compatibility_matrix)) [
      | inr (e, found) ↦
          let ((a', b', pa', pb', st, mig), ef, et) =
            find_entry-lem IsHeuristic from to compatibility_matrix e matrix-IsHeuristic found in
          let same_a : a' ≡ a = cc in
          let same_b : b' ≡ b = cc in
          (e, ground arith, ground arith, rw (same_a, same_b) at st, mig, ef, et)
      | inl missing ↦ (
        record {
          from = from;
          to = to;
          status = semver_status a b;
          migration_required = needs_migration (semver_status a b);
          description = status_description from to (semver_status a b);
        },
        ground arith,
        ground arith,
        refl,
        refl,
        refl,
        refl,
      )
    ]
