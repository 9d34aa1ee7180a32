-- ===== src/Amounts.antt =====
-- invofi/apps/frontend/src/lib/utils.ts, the amounts: `formatAmount`, `amountToStroops` and
-- `toStroopsBigInt`; and lib/live/convert.ts, the amounts of a wire message. A text is the list of
-- its code points, and a call that throws gives `none`. `10 ** decimals` is exact up to 22.
pub mod Decimal
pub mod Texts
pub mod RoundTrip
pub mod Wire
mod Tests
use invofi.Prelude.{
  ℕ, zero, suc, ◌+◌, ◌-◌, ◌*◌, ◌/◌, ◌%◌, ◌^◌, Bool, true, false, not, ◌&&◌, ◌||◌, Option, none,
  some, List, [], ◌∷◌, ◌++◌, length, take, drop, all, ltb, leb, ◌==◌, if◌then◌else◌,
}
use invofi.Prelude.Int.{ℤ, pos, negsuc, pos_part, neg_part, ◌+ℤ◌, ◌*ℤ◌, ◌/ℤ◌}
use invofi.Prelude.Text.{is_digit}
use invofi.Version.{span_digits}
use invofi.Amounts.Decimal.{big_int, to_decimal, to_string, neg}
use invofi.Validation.{split}
use invofi.RateLimit.{trim}

-- A JavaScript number: `fraction z` has a fractional part, and `Math.trunc` of it is z.
pub data Number : Type 0 where
  whole fraction : ℤ → Number
  not_finite : Number

-- `bigint | number | string | null | undefined`
pub data Amount : Type 0 where
  bigint : ℤ → Amount
  number : Number → Amount
  text : List ℕ → Amount
  missing : Amount

-- `s || '0'`
unfoldable pub or_zero : List ℕ → List ℕ
or_zero [] = b'0' ∷ []
or_zero (c ∷ s) = c ∷ s

unfoldable pub starts_with_minus : List ℕ → Bool
starts_with_minus [] = false
starts_with_minus (c ∷ s) = c == b'-'

-- `s.replace('-', '')`
unfoldable pub remove_minus : List ℕ → List ℕ
remove_minus [] = []
remove_minus (c ∷ s) = let rest = remove_minus s in if c == b'-' then s else c ∷ rest

unfoldable pub zeros : ℕ → List ℕ
zeros zero = []
zeros (suc n) = b'0' ∷ zeros n

-- `s.padStart(n, '0')`
unfoldable pub pad_start : ℕ → List ℕ → List ℕ
pad_start n s = zeros (n - length s) ++ s

-- `s.padEnd(n, '0')`
unfoldable pub pad_end : ℕ → List ℕ → List ℕ
pad_end n s = s ++ zeros (n - length s)

-- `s.replace(/0+$/, '')`
unfoldable pub strip_zeros : List ℕ → List ℕ
strip_zeros [] = []
strip_zeros (c ∷ s) =
    let rest = strip_zeros s in if c == b'0' && length rest == 0 then [] else c ∷ rest

-- `const [whole = '0', fraction = ''] = clean.split('.')`: further parts are dropped.
abbrev pub whole_part : List (List ℕ) → List ℕ
whole_part [] = b'0' ∷ []
whole_part (w ∷ parts) = w

abbrev pub fraction_part : List (List ℕ) → List ℕ
fraction_part (w ∷ f ∷ parts) = f
fraction_part _ = []

abbrev pub negate : ℤ → ℤ
negate (pos n) = neg n
negate (negsuc n) = pos (suc n)

abbrev pub signed : Bool → Option ℤ → Option ℤ
signed negative none = none
signed true (some z) = some (negate z)
signed false (some z) = some z

-- `whole * 10 ** decimals + fraction`, if both are numerals.
abbrev pub scaled_sum : ℕ → Option ℤ → Option ℤ → Option ℤ
scaled_sum decimals (some w) (some f) = some (w *ℤ pos (10 ^ decimals) +ℤ f)
scaled_sum decimals _ _ = none

unfoldable pub parts_value : ℕ → List (List ℕ) → Option ℤ
parts_value decimals parts =
    let padded_fraction = take decimals (pad_end decimals (fraction_part parts)) in
    scaled_sum decimals (big_int (or_zero (whole_part parts))) (big_int (or_zero padded_fraction))

-- `BigInt(10 ** decimals)` is this power up to 22 decimals; for more of them it is inexact, or throws.
unfoldable pub amount_to_stroops : List ℕ → ℕ → Option ℤ
amount_to_stroops amount decimals =
    let is_negative = starts_with_minus (trim amount) in
    let clean = trim (remove_minus (or_zero amount)) in
    signed is_negative (parts_value decimals (split b'.' clean))

-- `(\.\d{1,7})?$`
unfoldable pub is_fraction : List ℕ → Bool
is_fraction [] = true
is_fraction (c ∷ s) = c == b'.' && all is_digit s && leb 1 (length s) && leb (length s) 7

-- `/^\d+(\.\d{1,7})?$/`
unfoldable pub is_human_amount : List ℕ → Bool
is_human_amount s = let (ds, rest) = span_digits s in ltb 0 (length ds) && is_fraction rest

unfoldable pub text_to_stroops : List ℕ → Option ℤ
text_to_stroops s =
    if length s == 0
    then some (pos 0)
    else (if is_human_amount s then amount_to_stroops s 7 else big_int (or_zero s))

unfoldable pub to_stroops_big_int : Amount → Option ℤ
to_stroops_big_int (bigint z) = some z
to_stroops_big_int (number (whole z)) = some z
to_stroops_big_int (number (fraction z)) = some z
to_stroops_big_int (number not_finite) = none
to_stroops_big_int (text s) = text_to_stroops (trim s)
to_stroops_big_int missing = some (pos 0)

abbrev pub magnitude : ℤ → ℕ
magnitude z = pos_part z + neg_part z

-- The digits after the point, of the remainder.
unfoldable pub fraction_digits : ℕ → ℕ → List ℕ
fraction_digits decimals remainder = strip_zeros (pad_start decimals (to_decimal remainder))

-- As above, for up to 22 decimals.
unfoldable pub format_stroops : ℤ → ℕ → List ℕ
format_stroops z decimals =
    let divisor = 10 ^ decimals in
    let whole_digits = to_string (z /ℤ divisor) in
    let rest = fraction_digits decimals (magnitude z % divisor) in
    if length rest == 0 then whole_digits else whole_digits ++ (b'.' ∷ rest)

unfoldable pub format_amount : Amount → ℕ → Option (List ℕ)
format_amount stroops decimals = elim (to_stroops_big_int stroops) [
  | none ↦ none
  | some z ↦ some (format_stroops z decimals)
]

-- `/^-?\d+$/`
unfoldable pub is_integer_text : List ℕ → Bool
is_integer_text [] = false
is_integer_text (c ∷ s) =
    all is_digit (if c == b'-' then s else c ∷ s) && (not (c == b'-') || ltb 0 (length s))

-- `Number.isSafeInteger`
abbrev pub is_safe_integer : ℤ → Bool
is_safe_integer z = ltb (magnitude z) (2 ^ 53)

unfoldable pub stroops_from_wire : Amount → Option ℤ
stroops_from_wire missing = some (pos 0)
stroops_from_wire (bigint z) = some z
stroops_from_wire (number (whole z)) = if is_safe_integer z then some z else none
stroops_from_wire (number _) = none
stroops_from_wire (text t) =
    let s = trim t in
    if length s == 0
    then some (pos 0)
    else (if is_integer_text s then big_int s else to_stroops_big_int (text s))

unfoldable pub safe_stroops_from_wire : Amount → ℤ
safe_stroops_from_wire value = elim (stroops_from_wire value) [ none ↦ pos 0 | some z ↦ z ]
