-- ===== src/MockClient/Balances.antt =====
-- Sums and signs of the balances under the writes of a transfer.
use invofi.Prelude.{
  String, ◌≡◌, inl, inr, none, some, [], ◌∷◌, arith, eq_iff, str_eq, Option-cases, if◌then◌else◌,
}
use invofi.Prelude.Int.{ℤ, pos, ◌+ℤ◌, ◌-ℤ◌, ◌≤ℤ◌, int_laws}
use invofi.Prelude.Map.{Map, get, set, get-set, AllEntries, AllEntries-set, AllEntries-get}

-- What is recorded for an address; none is 0.
abbrev pub held : String → Map ℤ → ℤ
held a m = elim (get a m) [ none ↦ pos 0 | some n ↦ n ]

abbrev pub total : Map ℤ → ℤ
total [] = pos 0
total ((_, n) ∷ m) = n +ℤ total m

total-set : (a : String) (n : ℤ) (m : Map ℤ) → total (set a n m) +ℤ held a m ≡ total m +ℤ n
unfolding get set
total-set a n [] = omega int_laws
total-set a n ((b, k) ∷ m) = grind (int_laws, total-set a n m)

-- The balances after a transfer that goes through.
abbrev pub moved : String → String → ℤ → Map ℤ → Map ℤ
moved from to amount m =
    let debited = set from (held from m -ℤ amount) m in set to (held to debited +ℤ amount) debited

pub total-moved :
    (from to : String) (amount : ℤ) (m : Map ℤ) → total (moved from to amount m) ≡ total m
total-moved from to amount m = grind (
  int_laws,
  total-set from (held from m -ℤ amount) m,
  total-set to (held to (set from (held from m -ℤ amount) m) +ℤ amount)
      (set from (held from m -ℤ amount) m),
)

held-set :
    (k a : String) (n : ℤ) (m : Map ℤ) → held a (set k n m) ≡ (if str_eq k a then n else held a m)
held-set k a n m = ground (arith, get-set k a n m)

sub_add_cancel : (a b : ℤ) → a -ℤ b +ℤ b ≡ a
sub_add_cancel a b = omega int_laws

pub held-moved :
    (from to : String) (amount : ℤ) (a : String) (m : Map ℤ)
    → held a (moved from to amount m) ≡ (
        if str_eq to a
        then if str_eq from to then held a m else held a m +ℤ amount
        else if str_eq from a
        then held a m -ℤ amount
        else held a m)
held-moved from to amount a m =
    let debited = set from (held from m -ℤ amount) m in
    ground (
      arith,
      held-set to a (held to debited +ℤ amount) debited,
      held-set from to (held from m -ℤ amount) m,
      held-set from a (held from m -ℤ amount) m,
      sub_add_cancel (held a m) amount,
      eq_iff to a,
      eq_iff from a,
      eq_iff from to,
    )

-- No balance is negative.
abbrev pub IsFunded : Map ℤ → Type 0
IsFunded m = AllEntries (λ _ n. pos 0 ≤ℤ n) m

held-nonneg : (a : String) (m : Map ℤ) → IsFunded m → pos 0 ≤ℤ held a m
held-nonneg a m h = elim (Option-cases (get a m)) [
  | inl e ↦ ground arith
  | inr (n, e) ↦ let p : pos 0 ≤ℤ n = AllEntries-get (λ _ n. pos 0 ≤ℤ n) a n m h e in ground arith
]

pub moved-IsFunded :
    (from to : String) (amount : ℤ) (m : Map ℤ)
    → IsFunded m
    → pos 0 ≤ℤ amount
    → amount ≤ℤ held from m
    → IsFunded (moved from to amount m)
moved-IsFunded from to amount m h p c =
    let funded =
      AllEntries-set (λ _ n. pos 0 ≤ℤ n) from (held from m -ℤ amount) m h (omega int_laws) in
    AllEntries-set (λ _ n. pos 0 ≤ℤ n) to _ (set from (held from m -ℤ amount) m) funded
      (omega (int_laws, held-nonneg to (set from (held from m -ℤ amount) m) funded))
