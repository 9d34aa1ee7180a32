-- ===== src/Amounts/Tests.antt =====
-- Runs of the conversions, and instances of the theorems at some.
use invofi.Prelude.{arith, ◌≡◌, ◌^◌, refl, none, some, if◌then◌else◌, ltb}
use invofi.Prelude.Int.{pos, negsuc, ◌*ℤ◌, ◌+ℤ◌, ◌/ℤ◌}
use invofi.RateLimit.{trim_start, trim_end}
use invofi.Validation.{split, add_char}
use invofi.Version.{digits_value, span_digits}
use native.Mathlib.Decide.{dec_lt}
use invofi.Prelude.Text.{codes}
use invofi.Amounts.{
  text, bigint, or_zero, starts_with_minus, remove_minus, zeros, pad_start, pad_end, strip_zeros,
  parts_value, text_to_stroops, is_human_amount, is_fraction, is_integer_text, fraction_digits,
  format_amount, format_stroops, amount_to_stroops, to_stroops_big_int, stroops_from_wire,
}
use invofi.Amounts.Decimal.{
  to_string, to_decimal, digits, emit_digits, lt_wf, big_int, literal_value, decimal_value,
  prefix_base,
}
use invofi.Amounts.RoundTrip.{amount_to_stroops-format_stroops}

reads :
    (amount_to_stroops (codes " -12.5 ") 7 ≡ some (negsuc 124999999))
    × (to_stroops_big_int (text (codes "10000.00")) ≡ some (pos 100000000000))
    × (to_stroops_big_int (text (codes "-5")) ≡ some (negsuc 4))
    × (to_stroops_big_int (text (codes "-5.5")) ≡ none)
    × (stroops_from_wire (text (codes "5.5")) ≡ some (pos 55000000))
unfolding amount_to_stroops or_zero starts_with_minus remove_minus zeros pad_end parts_value big_int
    literal_value decimal_value prefix_base digits_value trim_start trim_end split add_char ◌*ℤ◌
    ◌+ℤ◌ to_stroops_big_int text_to_stroops is_human_amount is_fraction span_digits
    stroops_from_wire is_integer_text
reads = (refl, refl, refl, refl, refl)

prints :
    (format_amount (bigint (pos 12500000)) 7 ≡ some (codes "1.25"))
    × (format_amount (bigint (negsuc 4999999)) 7 ≡ some (codes "0.5"))
unfolding format_amount format_stroops to_stroops_big_int fraction_digits strip_zeros pad_start
    zeros to_decimal to_string digits emit_digits lt_wf dec_lt ◌/ℤ◌
prints = (refl, refl)

amount_to_stroops-format_stroops_example :
    amount_to_stroops (format_stroops (negsuc 24999999) 7) 7
    ≡ some (if ltb 25000000 (10 ^ 7) then pos 25000000 else negsuc 24999999)
amount_to_stroops-format_stroops_example =
    amount_to_stroops-format_stroops (negsuc 24999999) 7 (omega arith)
