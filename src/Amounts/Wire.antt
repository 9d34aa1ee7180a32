-- ===== src/Amounts/Wire.antt =====
-- Amounts that come from the mirror, in units, and from a wire message, in stroops.
use Prim.Native.Nat.{◌<◌}
use invofi.Prelude.{
  ℕ, suc, ◌+◌, ◌/◌, ◌%◌, ◌^◌, ◌≤◌, ◌≡◌, refl, sym, ap, ◌∙◌, true, some, List, [], ◌∷◌, ◌++◌, length,
  all, ◌==◌, arith, Bool-cases, inl, inr,
}
use invofi.Prelude.Int.{ℤ, pos, negsuc}
use invofi.Prelude.Text.{is_digit}
use invofi.RateLimit.{trim}
use invofi.Version.{digits_value, span_digits}
use invofi.Amounts.{
  text, is_fraction, is_human_amount, text_to_stroops, to_stroops_big_int, strip_zeros, pad_start,
  fraction_digits, format_stroops, amount_to_stroops, is_integer_text, stroops_from_wire,
}
use invofi.Amounts.Decimal.{
  big_int, literal_value, decimal_value, option_map, neg, to_decimal, to_string,
}
use invofi.Amounts.Texts.{value-to_decimal, all-to_decimal, length-to_decimal_pos, big_int-digits}
use invofi.Amounts.RoundTrip.{
  natural_text, natural_text_whole, natural_text_dotted, digits-plain, plain-natural_text,
  length-natural_text_pos, all-fraction_digits, length-pad_start, trim_plain, trim_minus,
  format_stroops-natural, amount_to_stroops-format_stroops,
}
use native.Mathlib.Nat.{mod-lt}

span_digits-all : (w : List ℕ) → all is_digit w ≡ true → span_digits w ≡ (w, [])
unfolding span_digits
span_digits-all [] h = refl
span_digits-all (c ∷ w) h = ground (arith, span_digits-all w)

span_digits_dot :
    (w f : List ℕ) → all is_digit w ≡ true → span_digits (w ++ (b'.' ∷ f)) ≡ (w, b'.' ∷ f)
unfolding span_digits
span_digits_dot [] f h = refl
span_digits_dot (c ∷ w) f h = ground (arith, span_digits_dot w f)

length-strip_zeros : (s : List ℕ) → length (strip_zeros s) ≤ length s
unfolding strip_zeros
length-strip_zeros [] = omega arith
length-strip_zeros (c ∷ s) = ground (arith, length-strip_zeros s)

length-fraction_digits : (r : ℕ) → r < 10 ^ 7 → length (fraction_digits 7 r) ≤ 7
unfolding fraction_digits
length-fraction_digits r h =
    ground
      (arith, length-strip_zeros (pad_start 7 (to_decimal r)), length-pad_start 7 r h (omega arith))

is_human_amount-natural_text : (n : ℕ) → is_human_amount (natural_text n 7) ≡ true
unfolding is_human_amount is_fraction
is_human_amount-natural_text n =
    let w = to_decimal (n / 10 ^ 7) in
    let f = fraction_digits 7 (n % 10 ^ 7) in
    elim (Bool-cases (length f == 0)) [
      | inl whole ↦
          ap is_human_amount (natural_text_whole n 7 whole)
          ∙ ground (
            arith,
            span_digits-all w (all-to_decimal (n / 10 ^ 7)),
            length-to_decimal_pos (n / 10 ^ 7),
          )
      | inr dotted ↦
          ap is_human_amount (natural_text_dotted n 7 dotted)
          ∙ ground (
            arith,
            span_digits_dot w f (all-to_decimal (n / 10 ^ 7)),
            length-to_decimal_pos (n / 10 ^ 7),
            all-fraction_digits 7 (n % 10 ^ 7),
            length-fraction_digits (n % 10 ^ 7) (mod-lt n (omega arith)),
          )
    ]

format_stroops-pos : (n : ℕ) → format_stroops (pos n) 7 ≡ natural_text n 7
format_stroops-pos n =
    format_stroops-natural (pos n) 7
    ∙ ap (λ k. natural_text k 7) (let e : n + 0 ≡ n = omega arith in e)

-- What the mirror stores of an amount that is not negative is read back as that amount.
pub to_stroops_big_int-format_stroops :
    (n : ℕ) → to_stroops_big_int (text (format_stroops (pos n) 7)) ≡ some (pos n)
unfolding to_stroops_big_int text_to_stroops
to_stroops_big_int-format_stroops n =
    let t = natural_text n 7 in
    let printed : format_stroops (pos n) 7 ≡ t = format_stroops-pos n in
    let read : amount_to_stroops t 7 ≡ some (pos n) =
      ap (λ s. amount_to_stroops s 7) (sym printed)
      ∙ amount_to_stroops-format_stroops (pos n) 7 (omega arith)
      ∙ ap (λ k. some (pos k)) (let e : n + 0 ≡ n = omega arith in e) in
    let trimmed : trim t ≡ t = trim_plain t (plain-natural_text n 7) in
    ap (λ s. text_to_stroops (trim s)) printed
    ∙ ap text_to_stroops trimmed
    ∙ ground (arith, is_human_amount-natural_text n, length-natural_text_pos n 7)

is_integer_text-digits :
    (s : List ℕ) → all is_digit s ≡ true → 1 ≤ length s → is_integer_text s ≡ true
unfolding is_integer_text
is_integer_text-digits [] h n = absurd (omega arith)
is_integer_text-digits (c ∷ s) h n = ground arith

decimal_value-digits :
    (s : List ℕ) → all is_digit s ≡ true → 1 ≤ length s → decimal_value s ≡ some (digits_value 0 s)
unfolding decimal_value
decimal_value-digits [] h n = absurd (omega arith)
decimal_value-digits (c ∷ s) h n = ground arith

trim-to_string : (z : ℤ) → trim (to_string z) ≡ to_string z
unfolding to_string
trim-to_string (pos n) = trim_plain (to_decimal n) (digits-plain (to_decimal n) (all-to_decimal n))
trim-to_string (negsuc n) =
    trim_minus (to_decimal (suc n)) (digits-plain (to_decimal (suc n)) (all-to_decimal (suc n)))

length-to_string_pos : (z : ℤ) → 1 ≤ length (to_string z)
unfolding to_string
length-to_string_pos (pos n) = length-to_decimal_pos n
length-to_string_pos (negsuc n) = omega arith

is_integer_text-to_string : (z : ℤ) → is_integer_text (to_string z) ≡ true
unfolding is_integer_text to_string
is_integer_text-to_string (pos n) =
    is_integer_text-digits (to_decimal n) (all-to_decimal n) (length-to_decimal_pos n)
is_integer_text-to_string (negsuc n) =
    ground (arith, all-to_decimal (suc n), length-to_decimal_pos (suc n))

big_int-to_string : (z : ℤ) → big_int (to_string z) ≡ some z
unfolding to_string big_int literal_value
big_int-to_string (pos n) =
    big_int-digits (to_decimal n) (all-to_decimal n) (length-to_decimal_pos n)
    ∙ ap (λ k. some (pos k)) (value-to_decimal n)
big_int-to_string (negsuc n) =
    ap literal_value (trim-to_string (negsuc n))
    ∙ ap (option_map neg) (
        decimal_value-digits (to_decimal (suc n)) (all-to_decimal (suc n))
          (length-to_decimal_pos (suc n))
        ∙ ap some (value-to_decimal (suc n)))

-- A bigint that a wire message carries as its decimal text, of either sign, is taken as stroops.
pub stroops_from_wire-to_string : (z : ℤ) → stroops_from_wire (text (to_string z)) ≡ some z
unfolding stroops_from_wire
stroops_from_wire-to_string z = ground (
  arith,
  trim-to_string z,
  length-to_string_pos z,
  is_integer_text-to_string z,
  big_int-to_string z,
)
