-- ===== src/Validation.antt =====
-- invofi/apps/sdk/src/validation.ts: the checks that every SDK method makes of its arguments.
-- A dynamic argument is a `JsValue`; a validator returns the narrowed value or the error that it
-- throws. The text of the messages is left out.
pub mod Address
pub mod Ranges
pub mod Decided
mod Tests
use invofi.Prelude.{
  ℕ, suc, ◌+◌, ◌*◌, ◌/◌, String, Bool, true, false, not, ◌&&◌, ◌||◌, List, [], ◌∷◌, length, all,
  ltb, leb, ◌==◌, str_eq, if◌then◌else◌,
}
use invofi.Prelude.Int.{ℤ, pos, negsuc, ltb_ℤ, leb_ℤ}
use invofi.Prelude.Text.{codes, utf16_length, is_digit, is_upper, is_lower, is_space}
use invofi.Prelude.Result.{Result, ok, err, ◌>>=◌, ◌>>◌, guard}

-- `fraction` is a number that is no integer, NaN and the infinities included; `other` is any value
-- that is no string, number or bigint.
pub data JsValue : Type 0 where
  text : String → JsValue
  num : ℤ → JsValue
  fraction : JsValue
  bigint : ℤ → JsValue
  other : JsValue

pub data ErrorCode : Type 0 where
  missing_field invalid_type invalid_address invalid_amount invalid_rate : ErrorCode
  invalid_duration invalid_due_date invalid_id invalid_asset : ErrorCode
  invalid_currency missing_config : ErrorCode

pub record SdkValidationError : Type 0 where
  pub code : ErrorCode
  pub field : String

abbrev pub Checked : Type 0 → Type 0
Checked A = Result SdkValidationError A

abbrev pub fail : ErrorCode → String → SdkValidationError
fail code field = record { code = code; field = field }

abbrev pub min_amount : ℕ
min_amount = 1

abbrev pub max_interest_rate_bps : ℕ
max_interest_rate_bps = 10000

abbrev pub max_duration_secs : ℕ
max_duration_secs = 31536000

-- `/^[GC][A-Z2-7]{55}$/`
abbrev pub is_base32 : ℕ → Bool
is_base32 c = is_upper c || (leb b'2' c && leb c b'7')

unfoldable pub stellar_address_re : List ℕ → Bool
stellar_address_re [] = false
stellar_address_re (c ∷ s) = (c == b'G' || c == b'C') && (length s == 55 && all is_base32 s)

-- `/^[A-Za-z0-9_]+$/`
abbrev pub is_symbol_char : ℕ → Bool
is_symbol_char c = is_upper c || is_lower c || is_digit c || c == b'_'

unfoldable pub symbol_re : List ℕ → Bool
symbol_re [] = false
symbol_re (c ∷ s) = all is_symbol_char (c ∷ s)

-- `s.trim() === ''`
abbrev pub is_blank : List ℕ → Bool
is_blank s = all is_space s

unfoldable pub validate_stellar_address : JsValue → String → Checked String
validate_stellar_address (text s) field = do
  guard (not (is_blank (codes s))) (fail invalid_address field)
  guard (stellar_address_re (codes s)) (fail invalid_address field)
  ok s
validate_stellar_address _ field = err (fail invalid_address field)

unfoldable pub validate_positive_i128 : JsValue → String → Checked ℤ
validate_positive_i128 (bigint n) field = do
  guard (leb_ℤ (pos min_amount) n) (fail invalid_amount field)
  ok n
validate_positive_i128 _ field = err (fail invalid_amount field)

unfoldable pub validate_interest_rate : JsValue → String → Checked ℤ
validate_interest_rate (num n) field = do
  guard (not (ltb_ℤ n (pos 1) || ltb_ℤ (pos max_interest_rate_bps) n)) (fail invalid_rate field)
  ok n
validate_interest_rate _ field = err (fail invalid_rate field)

unfoldable pub validate_duration : JsValue → String → Checked ℤ
validate_duration (num n) field = do
  guard (not (ltb_ℤ n (pos 1) || ltb_ℤ (pos max_duration_secs) n)) (fail invalid_duration field)
  ok n
validate_duration _ field = err (fail invalid_duration field)

-- `now_ms` is `Date.now()`.
unfoldable pub validate_future_timestamp : ℕ → JsValue → String → Checked ℤ
validate_future_timestamp now_ms (num n) field = do
  guard (not (leb_ℤ n (pos (now_ms / 1000)))) (fail invalid_due_date field)
  ok n
validate_future_timestamp now_ms _ field = err (fail invalid_due_date field)

unfoldable pub validate_symbol_id : JsValue → String → Checked String
validate_symbol_id (text s) field = do
  guard (not (is_blank (codes s))) (fail invalid_id field)
  guard (not (ltb 32 (utf16_length (codes s)))) (fail invalid_id field)
  guard (symbol_re (codes s)) (fail invalid_id field)
  ok s
validate_symbol_id _ field = err (fail invalid_id field)

pub data Currency : Type 0 where
  xlm usdc : Currency

unfoldable pub validate_currency : JsValue → String → Checked Currency
validate_currency (text s) field =
    if str_eq s "XLM"
    then ok xlm
    else (if str_eq s "USDC" then ok usdc else err (fail invalid_currency field))
validate_currency _ field = err (fail invalid_currency field)

-- `value.split(c)`, from the right; there is always a part.
unfoldable pub add_char : Bool → ℕ → List (List ℕ) → List (List ℕ)
add_char true d parts = [] ∷ parts
add_char false d [] = (d ∷ []) ∷ []
add_char false d (part ∷ parts) = (d ∷ part) ∷ parts

unfoldable pub split : ℕ → List ℕ → List (List ℕ)
unfolding add_char
split c [] = [] ∷ []
split c (d ∷ s) = add_char (d == c) d (split c s)

-- The two tests on the parts of "CODE:ISSUER".
unfoldable pub asset_parts : List (List ℕ) → Bool
asset_parts ((c ∷ code) ∷ (i ∷ issuer) ∷ []) = stellar_address_re (i ∷ issuer)
asset_parts _ = false

unfoldable pub validate_asset_string : JsValue → String → Checked String
validate_asset_string (text s) field = do
  guard (not (is_blank (codes s))) (fail invalid_asset field)
  guard (asset_parts (split b':' (codes s))) (fail invalid_asset field)
  ok s
validate_asset_string _ field = err (fail invalid_asset field)

unfoldable pub validate_config_field : JsValue → String → Checked String
validate_config_field (text s) field = do
  guard (not (is_blank (codes s))) (fail missing_config field)
  ok s
validate_config_field _ field = err (fail missing_config field)
