-- ===== src/MockClient/Failures.antt =====
-- Injected failures: which rule fires, and how often.
use invofi.Prelude.{
  ℕ, zero, suc, ◌+◌, ◌-◌, ◌≤◌, min, String, ◌≡◌, refl, ◌⊎◌, inl, inr, true, false, Option, none,
  some, List, [], ◌∷◌, ◌++◌, All, arith, eq_iff, Bool-cases, leb, if◌then◌else◌, leb→le, leb,
  if◌then◌else◌,
}
use invofi.MockClient.Store.{Thrown, FailureRule, rule_matches, rule_error, spend, take_failure}

-- Either no rule matches, and the rules stay; or the first rule that matches gives the error, and
-- is spent once, in its place.
pub take_failure-cases :
    (method : String) (rules : List FailureRule)
    → ((take_failure method rules ≡ (none, rules))
        × All (λ rule. rule_matches method rule ≡ false) rules)
      ⊎ ((before : List FailureRule) × (rule : FailureRule) × (after : List FailureRule) × (rules
            ≡ before ++ rule ∷ after)
          × All (λ rule. rule_matches method rule ≡ false) before
          × (rule_matches method rule ≡ true)
          × (take_failure method rules ≡ (some (rule_error rule), before ++ spend rule after)))
unfolding take_failure
take_failure-cases method [] = inl (refl, tt)
take_failure-cases method (rule ∷ rules) = elim (Bool-cases (rule_matches method rule)) [
  | inl e ↦ inr ([], rule, rules, refl, tt, e, rw e)
  | inr e ↦ elim (take_failure-cases method rules) [
    | inl (same, none_match) ↦ inl (rw (e, same), (e, none_match))
    | inr (before, first, after, split, others, hit, taken) ↦
        inr (rule ∷ before, first, after, rw split, (e, others), hit, rw (e, taken))
  ]
]

-- The number of the next `n` calls of a method that fail, and the rules that are left.
unfoldable pub failed_calls : ℕ → String → List FailureRule → ℕ
failed_calls zero method rules = 0
failed_calls (suc n) method rules =
    let (e, left) = take_failure method rules in
    (elim e [ none ↦ 0 | some _ ↦ 1 ]) + failed_calls n method left

failed_calls-nil : (n : ℕ) (method : String) → failed_calls n method [] ≡ 0
unfolding failed_calls take_failure
failed_calls-nil zero method = refl
failed_calls-nil (suc n) method = omega (arith, failed_calls-nil n method)

abbrev pub timed_rule : String → Option Thrown → ℕ → FailureRule
timed_rule method error k = record { on = some method; error = error; times = some k }

take_failure-timed_rule :
    (method : String) (error : Option Thrown) (k : ℕ)
    → take_failure method (timed_rule method error k ∷ []) ≡ (
      some (rule_error (timed_rule method error k)),
      if leb k 1 then [] else timed_rule method error (k - 1) ∷ [],
    )
unfolding take_failure
take_failure-timed_rule method error k = ground (arith, eq_iff method method, eq_iff method "*")

-- A rule for a method with a count of `k`, at least 1, fails exactly the next `k` calls of it: of
-- the next `n` calls, the smaller of `n` and `k`.
pub failed_calls-times :
    (n k : ℕ) (method : String) (error : Option Thrown)
    → 1 ≤ k
    → failed_calls n method (timed_rule method error k ∷ []) ≡ min n k
unfolding failed_calls
failed_calls-times zero k method error h = omega arith
failed_calls-times (suc n) k method error h =
    let e = take_failure-timed_rule method error k in
    elim (Bool-cases (leb k 1)) [
      | inl small ↦ ground (arith, failed_calls-nil n method, leb→le k 1)
      | inr large ↦ ground (arith, failed_calls-times n (k - 1) method error)
    ]
