-- ===== src/Amounts/Decimal.antt =====
-- `BigInt(text)` and `n.toString()` of the language: the numerals of JavaScript's bigints.
use Prim.Native.Nat.{◌<◌}
use invofi.Prelude.{
  ℕ, zero, suc, ◌+◌, ◌-◌, ◌*◌, ◌/◌, ◌%◌, ◌&&◌, ◌||◌, Option, none, some, List, [], ◌∷◌, length,
  drop, all, ltb, leb, ◌==◌, if◌then◌else◌, arith,
}
use invofi.Prelude.Int.{ℤ, pos, negsuc}
use invofi.Prelude.Text.{is_digit}
use invofi.RateLimit.{trim}
use invofi.Version.{digits_value}
use mathlib.Core.Logic.{dite}
use mathlib.Core.WellFounded.{Acc, WellFounded}
use native.Mathlib.Decide.{dec_lt}

unfoldable pub acc_below : (k n : ℕ) → n < k → Acc ◌<◌ n
acc_below zero n h = absurd (omega arith)
acc_below (suc k) n h = Acc.intro n λ m lt. acc_below k m (omega arith)

unfoldable pub lt_wf : WellFounded ◌<◌
unfolding acc_below
lt_wf = record { apply = λ n. acc_below (suc n) n (omega arith) }

pub tenth_lt : {n : ℕ} → 0 < n → n / 10 < n
tenth_lt h = omega arith

-- The digits of `n` in front of `out`, from the last one on.
unfoldable pub emit_digits : (n : ℕ) → Acc ◌<◌ n → List ℕ → List ℕ
emit_digits n (Acc.intro _ smaller) out =
    dite (dec_lt 0 n)
      (λ h. emit_digits (n / 10) (smaller (n / 10) (tenth_lt h)) ((b'0' + n % 10) ∷ out)) (λ _. out)

unfoldable pub digits : ℕ → List ℕ → List ℕ
digits n = emit_digits n (lt_wf.apply n)

unfoldable pub to_decimal : ℕ → List ℕ
to_decimal n = if n == 0 then b'0' ∷ [] else digits n []

unfoldable pub to_string : ℤ → List ℕ
to_string (pos n) = to_decimal n
to_string (negsuc n) = b'-' ∷ to_decimal (suc n)

abbrev pub neg : ℕ → ℤ
neg zero = pos 0
neg (suc n) = negsuc n

unfoldable pub decimal_value : List ℕ → Option ℕ
decimal_value [] = none
decimal_value (c ∷ s) = if all is_digit (c ∷ s) then some (digits_value 0 (c ∷ s)) else none

-- The value of a digit or letter as a digit of a base up to 16, or else 16.
unfoldable pub digit_value : ℕ → ℕ
digit_value c =
    if is_digit c
    then c - b'0'
    else (if leb b'a' c && leb c b'f'
        then c - b'a' + 10
        else (if leb b'A' c && leb c b'F' then c - b'A' + 10 else 16))

unfoldable pub radix_value : ℕ → ℕ → List ℕ → Option ℕ
radix_value base n [] = some n
radix_value base n (c ∷ s) =
    let rest = radix_value base (n * base + digit_value c) s in
    if ltb (digit_value c) base then rest else none

-- The base that the letter after a 0 announces, or else 0.
unfoldable pub prefix_base : List ℕ → ℕ
prefix_base [] = 0
prefix_base (c ∷ s) =
    if c == b'x' || c == b'X'
    then 16
    else (if c == b'o' || c == b'O' then 8 else (if c == b'b' || c == b'B' then 2 else 0))

unfoldable pub prefixed_value : List ℕ → Option ℕ
prefixed_value s =
    let base = prefix_base s in if length s == 1 then none else radix_value base 0 (drop 1 s)

abbrev pub option_map {ℓ κ} : {A : Type ℓ} {B : Type κ} → (A → B) → Option A → Option B
option_map f none = none
option_map f (some x) = some (f x)

-- A text without white space at its ends.
unfoldable pub literal_value : List ℕ → Option ℤ
literal_value [] = some (pos 0)
literal_value (c ∷ s) =
    if c == b'+'
    then option_map pos (decimal_value s)
    else (if c == b'-'
        then option_map neg (decimal_value s)
        else (if c == b'0' && ltb 0 (prefix_base s)
            then option_map pos (prefixed_value s)
            else option_map pos (decimal_value (c ∷ s))))

-- `BigInt(s)`; no value stands for the SyntaxError.
unfoldable pub big_int : List ℕ → Option ℤ
big_int s = literal_value (trim s)
