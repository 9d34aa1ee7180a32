-- ===== src/Amounts/Texts.antt =====
-- The digits that `to_decimal` prints, and how `BigInt` reads digits.
use Prim.Native.Nat.{◌<◌}
use invofi.Prelude.{
  ℕ, zero, suc, ◌+◌, ◌*◌, ◌/◌, ◌%◌, ◌^◌, ◌≤◌, ◌≡◌, refl, ap, ◌∙◌, true, false, some, List, [], ◌∷◌,
  length, all, arith,
}
use invofi.Prelude.Int.{pos}
use invofi.Prelude.Text.{is_digit, is_space}
use invofi.RateLimit.{trim, trim_start, trim_end}
use invofi.Amounts.Decimal.{
  lt_wf, tenth_lt, emit_digits, digits, to_decimal, decimal_value, prefix_base, literal_value,
  big_int,
}
use mathlib.Core.Logic.{ite, dite}
use invofi.Version.{digits_value}
use mathlib.Core.WellFounded
use mathlib.Core.WellFounded.{Acc, Acc-prop, WellFounded}
use native.Mathlib.Decide.{dec_lt}

-- The proof of termination does not matter.
emit_digits_lem :
    (n : ℕ) (w : Acc ◌<◌ n) (w' : Acc ◌<◌ (n / 10)) (out : List ℕ)
    → emit_digits n w out ≡ ite (dec_lt 0 n) (emit_digits (n / 10) w' ((b'0' + n % 10) ∷ out)) out
unfolding emit_digits
emit_digits_lem n (Acc.intro _ smaller) w' out = λ i.
    dite (dec_lt 0 n)
      (λ h.
        emit_digits (n / 10) (Acc-prop (smaller (n / 10) (tenth_lt h)) w' i)
          ((b'0' + n % 10) ∷ out))
      (λ _. out)

pub digits_round :
    (n : ℕ) (out : List ℕ)
    → digits n out ≡ ite (dec_lt 0 n) (digits (n / 10) ((b'0' + n % 10) ∷ out)) out
unfolding digits
digits_round n = emit_digits_lem n _ _

last_digit : (n : ℕ) → is_digit (b'0' + n % 10) ≡ true
last_digit n = ground arith

last_value :
    (n : ℕ) (out : List ℕ) → digits_value (n / 10) ((b'0' + n % 10) ∷ out) ≡ digits_value n out
unfolding digits_value
last_value n out = ap (λ k. digits_value k out) (omega arith)

pub value-digits : (n : ℕ) (out : List ℕ) → digits_value 0 (digits n out) ≡ digits_value n out
value-digits n =
    WellFounded.induction lt_wf
      {C = λ m. (out : List ℕ) → digits_value 0 (digits m out) ≡ digits_value m out} n
      λ m ih out. grind (arith, digits_round m out, last_value m out, ih (m / 10))

pub all-digits :
    (n : ℕ) (out : List ℕ) → all is_digit out ≡ true → all is_digit (digits n out) ≡ true
all-digits n =
    WellFounded.induction lt_wf
      {C = λ m. (out : List ℕ) → all is_digit out ≡ true → all is_digit (digits m out) ≡ true} n
      λ m ih out h. grind (arith, digits_round m out, last_digit m, ih (m / 10))

pub length-digits : (d n : ℕ) (out : List ℕ) → n < 10 ^ d → length (digits n out) ≤ d + length out
length-digits zero n out h = ground (arith, digits_round n out)
length-digits (suc d) n out h =
    let power : 10 ^ suc d ≡ 10 * 10 ^ d = omega arith in
    ground
      (arith, digits_round n out, length-digits d (n / 10) ((b'0' + n % 10) ∷ out) (omega arith))

length-digits_grows : (n : ℕ) (out : List ℕ) → length out ≤ length (digits n out)
length-digits_grows n =
    WellFounded.induction lt_wf {C = λ m. (out : List ℕ) → length out ≤ length (digits m out)} n
      λ m ih out. grind (arith, digits_round m out, ih (m / 10))

pub value-to_decimal : (n : ℕ) → digits_value 0 (to_decimal n) ≡ n
unfolding to_decimal digits_value
value-to_decimal n = ground (arith, value-digits n [])

pub all-to_decimal : (n : ℕ) → all is_digit (to_decimal n) ≡ true
unfolding to_decimal
all-to_decimal n = ground (arith, all-digits n [] refl)

pub length-to_decimal_pos : (n : ℕ) → 1 ≤ length (to_decimal n)
unfolding to_decimal
length-to_decimal_pos n =
    ground (arith, digits_round n [], length-digits_grows (n / 10) ((b'0' + n % 10) ∷ []))

pub length-to_decimal : (d n : ℕ) → n < 10 ^ d → 1 ≤ d → length (to_decimal n) ≤ d
unfolding to_decimal
length-to_decimal d n h one_up = ground (arith, length-digits d n [] h)

digit-not-space : (c : ℕ) → is_digit c ≡ true → is_space c ≡ false
digit-not-space c h = ground arith

trim_start_digits : (s : List ℕ) → all is_digit s ≡ true → trim_start s ≡ s
unfolding trim_start
trim_start_digits [] h = refl
trim_start_digits (c ∷ s) h = ground (arith, digit-not-space c)

trim_end_digits : (s : List ℕ) → all is_digit s ≡ true → trim_end s ≡ s
unfolding trim_end
trim_end_digits [] h = refl
trim_end_digits (c ∷ s) h = ground (arith, digit-not-space c, trim_end_digits s)

trim-digits : (s : List ℕ) → all is_digit s ≡ true → trim s ≡ s
trim-digits s h = ap trim_end (trim_start_digits s h) ∙ trim_end_digits s h

prefix_base-digits : (s : List ℕ) → all is_digit s ≡ true → prefix_base s ≡ 0
unfolding prefix_base
prefix_base-digits [] h = refl
prefix_base-digits (c ∷ s) h = ground arith

literal_value-digits :
    (s : List ℕ)
    → all is_digit s ≡ true
    → 1 ≤ length s
    → literal_value s ≡ some (pos (digits_value 0 s))
unfolding literal_value decimal_value
literal_value-digits [] h n = absurd (omega arith)
literal_value-digits (c ∷ s) h n = ground (arith, prefix_base-digits s)

pub big_int-digits :
    (s : List ℕ) → all is_digit s ≡ true → 1 ≤ length s → big_int s ≡ some (pos (digits_value 0 s))
unfolding big_int
big_int-digits s h n = ap literal_value (trim-digits s h) ∙ literal_value-digits s h n
