-- ===== src/Amounts/RoundTrip.antt =====
-- The print of an amount is read back.
use Prim.Native.Nat.{◌<◌}
use invofi.Prelude.{
  ℕ, zero, suc, ◌+◌, ◌-◌, ◌*◌, ◌/◌, ◌%◌, ◌^◌, ◌≤◌, ◌≡◌, refl, sym, ap, ◌∙◌, Bool, true, false, ◌||◌,
  Option, none, some, List, [], ◌∷◌, ◌++◌, length, take, all, ltb, ◌==◌, if◌then◌else◌, arith,
  length-append, Bool-cases, ltb→lt, inl, inr,
}
use invofi.Prelude.Int.{ℤ, pos, negsuc, neg_part, sub_ℕ, ◌/ℤ◌, ◌+ℤ◌, *ℤ-pos, +ℤ-pos, /ℤ-pos}
use invofi.Prelude.Text.{is_digit, is_space}
use invofi.RateLimit.{trim, trim_start, trim_end}
use invofi.Validation.{split, add_char}
use invofi.Version.{digits_value}
use invofi.Amounts.{
  or_zero, starts_with_minus, remove_minus, zeros, pad_start, pad_end, strip_zeros, scaled_sum,
  parts_value, signed, negate, amount_to_stroops, fraction_digits, format_stroops, magnitude,
}
use invofi.Amounts.Decimal.{big_int, to_decimal, to_string, neg}
use invofi.Amounts.Texts.{
  value-to_decimal, all-to_decimal, length-to_decimal_pos, length-to_decimal, big_int-digits,
}
use mathlib.Core.Path.{ap₂}
use native.Mathlib.Nat.{zero-div, div-eq_of_lt, div-add-mod', mod-lt}

length-zeros : (n : ℕ) → length (zeros n) ≡ n
unfolding zeros
length-zeros zero = refl
length-zeros (suc n) = ground (arith, length-zeros n)

all-zeros : (n : ℕ) (s : List ℕ) → all is_digit s ≡ true → all is_digit (zeros n ++ s) ≡ true
unfolding zeros
all-zeros zero s h = h
all-zeros (suc n) s h = ground (arith, all-zeros n s)

value-zeros : (n : ℕ) (s : List ℕ) → digits_value 0 (zeros n ++ s) ≡ digits_value 0 s
unfolding zeros digits_value
value-zeros zero s = refl
value-zeros (suc n) s = value-zeros n s

strip_zeros-nil : (s : List ℕ) → length (strip_zeros s) ≡ 0 → s ≡ zeros (length s)
unfolding strip_zeros zeros
strip_zeros-nil [] h = refl
strip_zeros-nil (c ∷ s) h = ground (arith, strip_zeros-nil s)

-- Stripped zeros are put back.
pad_end-strip_zeros : (s : List ℕ) → pad_end (length s) (strip_zeros s) ≡ s
unfolding pad_end strip_zeros zeros
pad_end-strip_zeros [] = refl
pad_end-strip_zeros (c ∷ s) = ground (arith, pad_end-strip_zeros s, strip_zeros-nil s)

take_whole : (n : ℕ) (s : List ℕ) → length s ≡ n → take n s ≡ s
take_whole zero [] h = refl
take_whole zero (c ∷ s) h = absurd (omega arith)
take_whole (suc n) [] h = refl
take_whole (suc n) (c ∷ s) h = ap (λ r. c ∷ r) (take_whole n s (omega arith))

or_zero-digits : (s : List ℕ) → 1 ≤ length s → or_zero s ≡ s
unfolding or_zero
or_zero-digits [] h = absurd (omega arith)
or_zero-digits (c ∷ s) h = refl

big_int-zero : big_int (or_zero []) ≡ some (pos 0)
unfolding or_zero digits_value
big_int-zero = big_int-digits (b'0' ∷ []) refl (omega arith)

module _ (d r : ℕ) (small : r < 10 ^ d) where
  pub length-pad_start : 1 ≤ d → length (pad_start d (to_decimal r)) ≡ d
  unfolding pad_start
  length-pad_start one_up = ground (
    arith,
    length-append (zeros (d - length (to_decimal r))) (to_decimal r),
    length-zeros (d - length (to_decimal r)),
    length-to_decimal d r small one_up,
  )

  big_int-pad_start : 1 ≤ d → big_int (pad_start d (to_decimal r)) ≡ some (pos r)
  unfolding pad_start
  big_int-pad_start one_up =
      big_int-digits (pad_start d (to_decimal r))
        (all-zeros (d - length (to_decimal r)) (to_decimal r) (all-to_decimal r))
        (ground (arith, length-pad_start))
      ∙ ap (λ n. some (pos n))
          (value-zeros (d - length (to_decimal r)) (to_decimal r) ∙ value-to_decimal r)

  padded-fraction_digits :
      1 ≤ d → take d (pad_end d (fraction_digits d r)) ≡ pad_start d (to_decimal r)
  unfolding fraction_digits
  padded-fraction_digits one_up =
      ap (λ n. take d (pad_end n (fraction_digits d r))) (sym (length-pad_start one_up))
      ∙ ap (take d) (pad_end-strip_zeros (pad_start d (to_decimal r)))
      ∙ take_whole d (pad_start d (to_decimal r)) (length-pad_start one_up)

-- The printed fraction, padded again, is read as the remainder.
big_int-fraction_digits :
    (d r : ℕ)
    → r < 10 ^ d
    → big_int (or_zero (take d (pad_end d (fraction_digits d r)))) ≡ some (pos r)
big_int-fraction_digits zero r small =
    big_int-zero ∙ ap (λ n. some (pos n)) (let e : 0 ≡ r = omega arith in e)
big_int-fraction_digits (suc d) r small =
    let padded = pad_start (suc d) (to_decimal r) in
    let full : length padded ≡ suc d = length-pad_start (suc d) r small (omega arith) in
    ap (λ s. big_int (or_zero s)) (padded-fraction_digits (suc d) r small (omega arith))
    ∙ ap big_int (or_zero-digits padded (omega (arith, full)))
    ∙ big_int-pad_start (suc d) r small (omega arith)

all-strip_zeros : (s : List ℕ) → all is_digit s ≡ true → all is_digit (strip_zeros s) ≡ true
unfolding strip_zeros
all-strip_zeros [] h = refl
all-strip_zeros (c ∷ s) h = ground (arith, all-strip_zeros s)

pub all-fraction_digits : (d r : ℕ) → all is_digit (fraction_digits d r) ≡ true
unfolding fraction_digits pad_start
all-fraction_digits d r =
    all-strip_zeros _ (all-zeros (d - length (to_decimal r)) (to_decimal r) (all-to_decimal r))

-- A digit or a point.
abbrev pub is_plain : ℕ → Bool
is_plain c = is_digit c || c == b'.'

plain_lem : (c : ℕ) → is_plain c ≡ true → (is_space c ≡ false) × ((c == b'-') ≡ false)
plain_lem c h = ground arith

trim_start_plain : (s : List ℕ) → all is_plain s ≡ true → trim_start s ≡ s
unfolding trim_start
trim_start_plain [] h = refl
trim_start_plain (c ∷ s) h = ground (arith, plain_lem c)

trim_end_plain : (s : List ℕ) → all is_plain s ≡ true → trim_end s ≡ s
unfolding trim_end
trim_end_plain [] h = refl
trim_end_plain (c ∷ s) h = ground (arith, plain_lem c, trim_end_plain s)

remove_minus_plain : (s : List ℕ) → all is_plain s ≡ true → remove_minus s ≡ s
unfolding remove_minus
remove_minus_plain [] h = refl
remove_minus_plain (c ∷ s) h = ground (arith, plain_lem c, remove_minus_plain s)

pub trim_plain : (s : List ℕ) → all is_plain s ≡ true → trim s ≡ s
trim_plain s h = ap trim_end (trim_start_plain s h) ∙ trim_end_plain s h

pub trim_minus : (s : List ℕ) → all is_plain s ≡ true → trim (b'-' ∷ s) ≡ b'-' ∷ s
unfolding trim_start trim_end
trim_minus s h = ap (λ r. b'-' ∷ r) (trim_end_plain s h)

starts_plain : (s : List ℕ) → all is_plain s ≡ true → starts_with_minus s ≡ false
unfolding starts_with_minus
starts_plain [] h = refl
starts_plain (c ∷ s) h = ground (arith, plain_lem c)

signed-id : (z : Option ℤ) → signed false z ≡ z
signed-id none = refl
signed-id (some z) = refl

-- A text of digits and points is read by its parts, and a minus sign in front negates it.
pub amount_to_stroops-plain :
    (t : List ℕ) (d : ℕ)
    → all is_plain t ≡ true
    → 1 ≤ length t
    → amount_to_stroops t d ≡ parts_value d (split b'.' t)
unfolding amount_to_stroops
amount_to_stroops-plain t d h n =
    ap₂ (λ b s. signed b (parts_value d (split b'.' s)))
      (ap starts_with_minus (trim_plain t h) ∙ starts_plain t h)
      (ap trim (ap remove_minus (or_zero-digits t n) ∙ remove_minus_plain t h) ∙ trim_plain t h)
    ∙ signed-id _

amount_to_stroops-minus :
    (t : List ℕ) (d : ℕ)
    → all is_plain t ≡ true
    → amount_to_stroops (b'-' ∷ t) d ≡ signed true (parts_value d (split b'.' t))
unfolding amount_to_stroops or_zero remove_minus starts_with_minus
amount_to_stroops-minus t d h =
    ap₂ (λ b s. signed b (parts_value d (split b'.' s))) (ap starts_with_minus (trim_minus t h))
      (trim_plain t h)

split-digits : (s : List ℕ) → all is_digit s ≡ true → split b'.' s ≡ s ∷ []
unfolding split add_char
split-digits [] h = refl
split-digits (c ∷ s) h = ground (arith, split-digits s)

split-dot :
    (w f : List ℕ)
    → all is_digit w ≡ true
    → all is_digit f ≡ true
    → split b'.' (w ++ (b'.' ∷ f)) ≡ w ∷ f ∷ []
unfolding split add_char
split-dot [] f h k = ground (arith, split-digits f)
split-dot (c ∷ w) f h k = ground (arith, split-dot w f)

-- The text of a natural number of stroops.
unfoldable pub natural_text : ℕ → ℕ → List ℕ
natural_text n d =
    let rest = fraction_digits d (n % 10 ^ d) in
    if length rest == 0 then to_decimal (n / 10 ^ d) else to_decimal (n / 10 ^ d) ++ (b'.' ∷ rest)

power_pos : (d : ℕ) → 0 < 10 ^ d
power_pos zero = omega arith
power_pos (suc d) = omega (arith, power_pos d)

pub digits-plain : (s : List ℕ) → all is_digit s ≡ true → all is_plain s ≡ true
digits-plain [] h = refl
digits-plain (c ∷ s) h = ground (arith, digits-plain s)

dotted-plain :
    (w f : List ℕ)
    → all is_digit w ≡ true
    → all is_digit f ≡ true
    → all is_plain (w ++ (b'.' ∷ f)) ≡ true
dotted-plain [] f h k = ground (arith, digits-plain f)
dotted-plain (c ∷ w) f h k = ground (arith, dotted-plain w f)

pub plain-natural_text : (n d : ℕ) → all is_plain (natural_text n d) ≡ true
unfolding natural_text
plain-natural_text n d = ground (
  arith,
  digits-plain (to_decimal (n / 10 ^ d)) (all-to_decimal (n / 10 ^ d)),
  dotted-plain (to_decimal (n / 10 ^ d)) (fraction_digits d (n % 10 ^ d))
      (all-to_decimal (n / 10 ^ d)) (all-fraction_digits d (n % 10 ^ d)),
)

pub length-natural_text_pos : (n d : ℕ) → 1 ≤ length (natural_text n d)
unfolding natural_text
length-natural_text_pos n d = ground (
  arith,
  length-to_decimal_pos (n / 10 ^ d),
  length-append (to_decimal (n / 10 ^ d)) (b'.' ∷ fraction_digits d (n % 10 ^ d)),
)

nil_of_length : (s : List ℕ) → length s ≡ 0 → s ≡ []
nil_of_length [] h = refl
nil_of_length (c ∷ s) h = absurd (omega arith)

pub natural_text_whole :
    (n d : ℕ)
    → (length (fraction_digits d (n % 10 ^ d)) == 0) ≡ true
    → natural_text n d ≡ to_decimal (n / 10 ^ d)
unfolding natural_text
natural_text_whole n d h = ground arith

pub natural_text_dotted :
    (n d : ℕ)
    → (length (fraction_digits d (n % 10 ^ d)) == 0) ≡ false
    → natural_text n d ≡ to_decimal (n / 10 ^ d) ++ (b'.' ∷ fraction_digits d (n % 10 ^ d))
unfolding natural_text
natural_text_dotted n d h = ground arith

-- The parts of the text are the quotient's digits and the remainder's.
parts_value-natural_text : (n d : ℕ) → parts_value d (split b'.' (natural_text n d)) ≡ some (pos n)
unfolding natural_text parts_value
parts_value-natural_text n d =
    let w = to_decimal (n / 10 ^ d) in
    let f = fraction_digits d (n % 10 ^ d) in
    let number : parts_value d (w ∷ f ∷ []) ≡ some (pos n) =
      ap₂ (scaled_sum d)
        (ap big_int (or_zero-digits w (length-to_decimal_pos (n / 10 ^ d)))
          ∙ big_int-digits w (all-to_decimal (n / 10 ^ d)) (length-to_decimal_pos (n / 10 ^ d))
          ∙ ap (λ k. some (pos k)) (value-to_decimal (n / 10 ^ d)))
        (big_int-fraction_digits d (n % 10 ^ d) (mod-lt n (power_pos d)))
      ∙ ap some (
          ap (λ z. z +ℤ pos (n % 10 ^ d)) (*ℤ-pos (n / 10 ^ d) (10 ^ d))
          ∙ +ℤ-pos (n / 10 ^ d * 10 ^ d) (n % 10 ^ d)
          ∙ ap pos (div-add-mod' n (10 ^ d))) in
    elim (Bool-cases (length f == 0)) [
      | inl whole ↦
          let none_left : [] ≡ f = sym (nil_of_length f (ground arith)) in
          ap (λ t. parts_value d (split b'.' t)) (natural_text_whole n d whole)
          ∙ ap (parts_value d) (split-digits w (all-to_decimal (n / 10 ^ d)))
          ∙ ap (λ g. parts_value d (w ∷ g ∷ [])) none_left
          ∙ number
      | inr dotted ↦
          ap (λ t. parts_value d (split b'.' t)) (natural_text_dotted n d dotted)
          ∙ ap (parts_value d)
              (split-dot w f (all-to_decimal (n / 10 ^ d)) (all-fraction_digits d (n % 10 ^ d)))
          ∙ number
    ]

quotient_small : (n k : ℕ) → 0 < k → (n / k == 0) ≡ ltb n k
quotient_small n k h = elim (Bool-cases (ltb n k)) [
  | inl small ↦ let e : n / k ≡ 0 = div-eq_of_lt (ltb→lt n k small) in ground arith
  | inr large ↦ elim (Bool-cases (n / k == 0)) [
    | inl none_left ↦
        let e : n / k ≡ 0 = ground arith in
        let none_times : n / k * k ≡ 0 * k = ap (λ q. q * k) e in
        ground (arith, div-add-mod' n k, mod-lt n h)
    | inr some_left ↦ ground arith
  ]
]

to_string-minus :
    (m : ℕ) → to_string (sub_ℕ 0 m) ≡ (if m == 0 then to_decimal m else b'-' ∷ to_decimal m)
unfolding to_string
to_string-minus zero = refl
to_string-minus (suc m) =
    let e : sub_ℕ 0 (suc m) ≡ negsuc m = ground arith in
    let p : to_string (sub_ℕ 0 (suc m)) ≡ b'-' ∷ to_decimal (suc m) = ap to_string e in ground arith

-- The digits of the whole part, of a natural number and of a negative one.
to_string-quotient :
    (z : ℤ) (k : ℕ)
    → 0 < k
    → to_string (z /ℤ k) ≡ (
        if ltb (neg_part z) k
        then to_decimal (magnitude z / k)
        else b'-' ∷ to_decimal (magnitude z / k))
unfolding to_string ◌/ℤ◌
to_string-quotient (pos n) k h =
    ap to_string (/ℤ-pos n k) ∙ ground (arith, let e : n + 0 ≡ n = omega arith in e)
to_string-quotient (negsuc n) k h =
    let e : 0 + suc n ≡ suc n = omega arith in
    let p : negsuc n /ℤ k ≡ sub_ℕ 0 (suc n / k) = ap (λ a. sub_ℕ a (suc n / k)) (zero-div k) in
    ap to_string p ∙ to_string-minus (suc n / k) ∙ ground (arith, quotient_small (suc n) k h)

-- The print of an integer is that of its magnitude, with a minus sign if its whole part has one.
pub format_stroops-natural :
    (z : ℤ) (d : ℕ)
    → format_stroops z d ≡ (
        if ltb (neg_part z) (10 ^ d)
        then natural_text (magnitude z) d
        else b'-' ∷ natural_text (magnitude z) d)
unfolding format_stroops natural_text
format_stroops-natural z d = ground (arith, to_string-quotient z (10 ^ d) (power_pos d))

negate-magnitude : (z : ℤ) → 0 < neg_part z → negate (pos (magnitude z)) ≡ z
negate-magnitude (pos n) h = absurd (omega arith)
negate-magnitude (negsuc n) h = ap neg (let e : 0 + suc n ≡ suc n = omega arith in e)

-- Every amount, printed with up to 22 decimals, is read back as it was; but a negative amount above
-- -1 unit loses its sign. For more decimals the scale of the source is not the power of ten.
pub amount_to_stroops-format_stroops :
    (z : ℤ) (d : ℕ)
    → d ≤ 22
    → amount_to_stroops (format_stroops z d) d
      ≡ some (if ltb (neg_part z) (10 ^ d) then pos (magnitude z) else z)
amount_to_stroops-format_stroops z d exact =
    let t = natural_text (magnitude z) d in
    let read : parts_value d (split b'.' t) ≡ some (pos (magnitude z)) =
      parts_value-natural_text (magnitude z) d in
    let plain : amount_to_stroops t d ≡ some (pos (magnitude z)) =
      amount_to_stroops-plain t d (plain-natural_text (magnitude z) d)
        (length-natural_text_pos (magnitude z) d)
      ∙ read in
    let minus : amount_to_stroops (b'-' ∷ t) d ≡ some (negate (pos (magnitude z))) =
      amount_to_stroops-minus t d (plain-natural_text (magnitude z) d) ∙ ap (signed true) read in
    ap (λ s. amount_to_stroops s d) (format_stroops-natural z d)
    ∙ elim (Bool-cases (ltb (neg_part z) (10 ^ d))) [
      | inl small ↦ ground arith
      | inr large ↦ ground (arith, negate-magnitude z, power_pos d)
    ]
