-- ===== src/Validation/Decided.antt =====
-- Each check at an argument of its own type: it passes the value, or it throws; which of the two is
-- decided by the description of the values that it accepts.
use invofi.Prelude.{
  ℕ, ◌/◌, String, ◌≡◌, refl, ◌≢◌, ◌⊎◌, inl, inr, arith, eq_iff, str_eq, Bool-cases,
}
use invofi.Prelude.Int.{ℤ, pos, ◌≤ℤ◌, ◌<ℤ◌}
use invofi.Prelude.Text.{codes}
use invofi.Prelude.Result.{ok, err, Result-cases}
use invofi.Validation.{
  text, num, bigint, SdkValidationError, fail, invalid_address, invalid_amount, invalid_rate,
  invalid_duration, invalid_due_date, invalid_id, invalid_currency, Checked, Currency, xlm, usdc,
  validate_stellar_address, validate_positive_i128, validate_interest_rate, validate_duration,
  validate_future_timestamp, validate_symbol_id, validate_currency,
}
use invofi.Validation.Address.{IsAddress, validate_stellar_address-eq-ok_iff}
use invofi.Validation.Ranges.{IsSymbol, validate_symbol_id-eq-ok_iff, errors-ThrowsOnly}

-- The call gives `a` and `P` holds, or it throws `e` and `P` fails.
abbrev pub Decided : {A : Type 0} → Checked A → A → SdkValidationError → Type 0 → Type 0
Decided r a e P = ((r ≡ ok a) × P) ⊎ ((r ≡ err e) × ¬ P)

pub IsAddress-decided :
    (a field : String)
    → Decided
        (validate_stellar_address (text a) field)
        a
        (fail invalid_address field)
        (IsAddress (codes a))
IsAddress-decided a field = elim (Result-cases (validate_stellar_address (text a) field)) [
  | inl (b, e) ↦
      let (same, h) = (validate_stellar_address-eq-ok_iff (text a) field b).0 e in
      inl (ground arith, ground arith)
  | inr (x, e) ↦ inr (
    ground (arith, (errors-ThrowsOnly (text a) field 0).0),
    λ h. ground (arith, (validate_stellar_address-eq-ok_iff (text a) field a).1 (refl, h)),
  )
]

pub IsSymbol-decided :
    (a field : String)
    → Decided (validate_symbol_id (text a) field) a (fail invalid_id field) (IsSymbol (codes a))
IsSymbol-decided a field = elim (Result-cases (validate_symbol_id (text a) field)) [
  | inl (b, e) ↦
      let (same, h) = (validate_symbol_id-eq-ok_iff (text a) field b).0 e in
      inl (ground arith, ground arith)
  | inr (x, e) ↦ inr (
    ground (arith, (errors-ThrowsOnly (text a) field 0).5),
    λ h. ground (arith, (validate_symbol_id-eq-ok_iff (text a) field a).1 (refl, h)),
  )
]

pub amount_decided :
    (n : ℤ) (field : String)
    → Decided (validate_positive_i128 (bigint n) field) n (fail invalid_amount field) (pos 1 ≤ℤ n)
unfolding validate_positive_i128
amount_decided n field = ground arith

pub rate_decided :
    (n : ℤ) (field : String)
    → Decided
        (validate_interest_rate (num n) field)
        n
        (fail invalid_rate field)
        ((pos 1 ≤ℤ n) × (n ≤ℤ pos 10000))
unfolding validate_interest_rate
rate_decided n field = ground arith

pub duration_decided :
    (n : ℤ) (field : String)
    → Decided
        (validate_duration (num n) field)
        n
        (fail invalid_duration field)
        ((pos 1 ≤ℤ n) × (n ≤ℤ pos 31536000))
unfolding validate_duration
duration_decided n field = ground arith

pub due_date_decided :
    (now_ms : ℕ) (n : ℤ) (field : String)
    → Decided
        (validate_future_timestamp now_ms (num n) field)
        n
        (fail invalid_due_date field)
        (pos (now_ms / 1000) <ℤ n)
unfolding validate_future_timestamp
due_date_decided now_ms n field = ground arith

-- The currency that a text names.
pub data Names : String → Currency → Type 0 where
  an_xlm : {s : String} → s ≡ "XLM" → Names s xlm
  a_usdc : {s : String} → s ≡ "USDC" → Names s usdc

pub currency_decided :
    (s field : String)
    → ((c : Currency) × (validate_currency (text s) field ≡ ok c) × Names s c)
      ⊎ ((validate_currency (text s) field ≡ err (fail invalid_currency field))
          × (s ≢ "XLM")
          × (s ≢ "USDC"))
unfolding validate_currency
currency_decided s field = elim (Bool-cases (str_eq s "XLM")) [
  | inl e ↦ inl (xlm, rw e, an_xlm ((eq_iff s "XLM").0 e))
  | inr e ↦ elim (Bool-cases (str_eq s "USDC")) [
    | inl e' ↦ inl (usdc, rw (e, e'), a_usdc ((eq_iff s "USDC").0 e'))
    | inr e' ↦ inr (rw (e, e'), ground (arith, eq_iff s "XLM"), ground (arith, eq_iff s "USDC"))
  ]
]

pub Names-validates :
    (s field : String) (c : Currency) → Names s c → validate_currency (text s) field ≡ ok c
unfolding validate_currency
Names-validates s field c (an_xlm e) = ground (arith, eq_iff s "XLM")
Names-validates s field c (a_usdc e) = rw e
