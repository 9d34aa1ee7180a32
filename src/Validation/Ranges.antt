-- ===== src/Validation/Ranges.antt =====
-- The numbers, dates, identifiers and currencies that validation.ts accepts, and the errors that
-- it throws.
use invofi.Prelude.{
  ℕ, ◌/◌, ◌≤◌, String, ◌≡◌, refl, ◌↔◌, ◌⊎◌, true, false, List, [], ◌∷◌, length, All, all, all_iff,
  All-map, arith,
}
use invofi.Prelude.Int.{ℤ, pos, ◌≤ℤ◌, ◌<ℤ◌}
use invofi.Prelude.Text.{codes, utf16_length}
use invofi.Prelude.Result.{ok, err}
use invofi.Validation.{
  ErrorCode, Checked, JsValue, text, num, bigint, fail, invalid_address, invalid_amount,
  invalid_rate, invalid_duration, invalid_due_date, invalid_id, invalid_asset, invalid_currency,
  missing_config, is_symbol_char, is_blank, symbol_re, validate_stellar_address,
  validate_positive_i128, validate_interest_rate, validate_duration, validate_future_timestamp,
  validate_symbol_id, validate_currency, validate_asset_string, validate_config_field,
}

-- The numeric checks accept exactly: a bigint of at least 1; an integer rate from 1 to 10000; an
-- integer duration from 1 to 31536000 (365 days); an integer time later than the current second.
pub numbers-eq-ok_iff :
    (v : JsValue) (field : String) (now_ms : ℕ) (n : ℤ)
    → ((validate_positive_i128 v field ≡ ok n) ↔ ((v ≡ bigint n) × (pos 1 ≤ℤ n)))
      × ((validate_interest_rate v field ≡ ok n) ↔ ((v ≡ num n) × (pos 1 ≤ℤ n) × (n ≤ℤ pos 10000)))
      × ((validate_duration v field ≡ ok n) ↔ ((v ≡ num n) × (pos 1 ≤ℤ n) × (n ≤ℤ pos 31536000)))
      × ((validate_future_timestamp now_ms v field ≡ ok n)
          ↔ ((v ≡ num n) × (pos (now_ms / 1000) <ℤ n)))
unfolding validate_positive_i128 validate_interest_rate validate_duration validate_future_timestamp
numbers-eq-ok_iff (text s) field now_ms n = (ground arith, ground arith, ground arith, ground arith)
numbers-eq-ok_iff _ field now_ms n = (ground arith, ground arith, ground arith, ground arith)

-- A letter, a digit or an underscore, as a code point.
abbrev pub IsSymbolChar : ℕ → Type 0
IsSymbolChar c = ((65 ≤ c) × (c ≤ 90)) ⊎ ((97 ≤ c) × (c ≤ 122)) ⊎ ((48 ≤ c) × (c ≤ 57)) ⊎ (c ≡ 95)

-- From 1 to 32 letters, digits and underscores.
abbrev pub IsSymbol : List ℕ → Type 0
IsSymbol s = (1 ≤ length s) × (length s ≤ 32) × All IsSymbolChar s

is_symbol_char_iff : (c : ℕ) → (is_symbol_char c ≡ true) ↔ IsSymbolChar c
is_symbol_char_iff c = ground arith

all-is_symbol_char : (s : List ℕ) → (all is_symbol_char s ≡ true) ↔ All IsSymbolChar s
all-is_symbol_char s = (
  λ h. All-map _ IsSymbolChar (λ c. (is_symbol_char_iff c).0) s ((all_iff is_symbol_char s).0 h),
  λ h. (all_iff is_symbol_char s).1 (All-map IsSymbolChar _ (λ c. (is_symbol_char_iff c).1) s h),
)

-- A text of symbol characters is as long in UTF-16 units as in code points.
symbol-utf16_length : (s : List ℕ) → All IsSymbolChar s → utf16_length s ≡ length s
symbol-utf16_length [] h = refl
symbol-utf16_length (c ∷ s) h = ground (arith, symbol-utf16_length s h.1)

symbol-not-blank : (s : List ℕ) → 1 ≤ length s → All IsSymbolChar s → is_blank s ≡ false
symbol-not-blank [] l h = absurd (omega arith)
symbol-not-blank (c ∷ s) l h = ground arith

symbol_re_iff : (s : List ℕ) → (symbol_re s ≡ true) ↔ ((1 ≤ length s) × All IsSymbolChar s)
unfolding symbol_re
symbol_re_iff [] = ground arith
symbol_re_iff (c ∷ s) = (
  λ h. (omega arith, (all-is_symbol_char (c ∷ s)).0 h),
  λ (_, h). (all-is_symbol_char (c ∷ s)).1 h,
)

-- `validateSymbolId` accepts a value exactly when it is a string of 1 to 32 letters, digits and
-- underscores, and gives that string back.
pub validate_symbol_id-eq-ok_iff :
    (v : JsValue) (field a : String)
    → (validate_symbol_id v field ≡ ok a) ↔ ((v ≡ text a) × IsSymbol (codes a))
unfolding validate_symbol_id
validate_symbol_id-eq-ok_iff (text s) field a = ground (
  arith,
  symbol_re_iff (codes s),
  symbol_re_iff (codes a),
  symbol-utf16_length (codes s),
  symbol-utf16_length (codes a),
  symbol-not-blank (codes s),
  symbol-not-blank (codes a),
)
validate_symbol_id-eq-ok_iff _ field a = ground arith

-- If the call throws, the error has this code and this field.
abbrev pub ThrowsOnly : {A : Type 0} → ErrorCode → String → Checked A → Type 0
ThrowsOnly code field (ok _) = Unit
ThrowsOnly code field (err e) = e ≡ fail code field

-- Every error that a validator throws names the field it was given and the validator's own code.
pub errors-ThrowsOnly :
    (v : JsValue) (field : String) (now_ms : ℕ)
    → ThrowsOnly invalid_address field (validate_stellar_address v field)
      × ThrowsOnly invalid_amount field (validate_positive_i128 v field)
      × ThrowsOnly invalid_rate field (validate_interest_rate v field)
      × ThrowsOnly invalid_duration field (validate_duration v field)
      × ThrowsOnly invalid_due_date field (validate_future_timestamp now_ms v field)
      × ThrowsOnly invalid_id field (validate_symbol_id v field)
      × ThrowsOnly invalid_currency field (validate_currency v field)
      × ThrowsOnly invalid_asset field (validate_asset_string v field)
      × ThrowsOnly missing_config field (validate_config_field v field)
unfolding validate_stellar_address validate_positive_i128 validate_interest_rate validate_duration
    validate_future_timestamp validate_symbol_id validate_currency validate_asset_string
    validate_config_field
errors-ThrowsOnly (text s) field now_ms =
    (ground arith, refl, refl, refl, refl, ground arith, ground arith, ground arith, ground arith)
errors-ThrowsOnly (num n) field now_ms = (
  ground arith,
  ground arith,
  ground arith,
  ground arith,
  ground arith,
  ground arith,
  ground arith,
  ground arith,
  ground arith,
)
errors-ThrowsOnly _ field now_ms = (
  ground arith,
  ground arith,
  ground arith,
  ground arith,
  ground arith,
  ground arith,
  ground arith,
  ground arith,
  ground arith,
)
