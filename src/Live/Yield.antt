-- ===== src/Live/Yield.antt =====
-- The yield that an offer has earned, and what remains to be repaid.
use invofi.Prelude.{
  ℕ, ◌+◌, ◌-◌, ◌*◌, ◌/◌, ◌≤◌, min, ◌≡◌, sym, subst, refl, ap, ◌∙◌, ◌↔◌, inl, inr, Bool-cases, true,
  arith, leb, leb→le,
}
use invofi.Prelude.Int.{pos, ◌-ℤ◌, ◌*ℤ◌, ◌/ℤ◌, ◌≤ℤ◌, *ℤ-pos, /ℤ-pos}
use mathlib.Core.Path.{ap₂}
use native.Mathlib.Nat.{
  zero-mul, le_trans, mul-div_cancel, zero-div, le-div_iff_mul-le, div-mul-le_self, mul-le-mul_left,
}
use invofi.Types.{FinancingOffer}
use invofi.MockClient.Repayment.{total_due, is_fully_repaid}
use invofi.Live.{
  total_yield_stroops, total_due_stroops, remaining_stroops, floor_zero, elapsed_secs,
  yield_earned_stroops,
}

-- The dashboard and the client agree on what is due: the remaining claim is never negative, and it
-- is zero exactly when a repayment would call the offer fully repaid.
pub remaining-is_fully_repaid :
    (offer : FinancingOffer)
    → (total_due_stroops offer ≡ total_due offer)
      × (pos 0 ≤ℤ remaining_stroops offer)
      × ((remaining_stroops offer ≡ pos 0) ↔ (is_fully_repaid offer ≡ true))
unfolding remaining_stroops total_due_stroops total_yield_stroops total_due ◌-ℤ◌
remaining-is_fully_repaid offer = (refl, ground arith, ground arith)

-- An offer of principal `p` at `r` basis points over `d` seconds, funded at `f`.
abbrev pub IsFundedOffer : FinancingOffer → (p r d f : ℕ) → Type 0
IsFundedOffer offer p r d f =
    (offer.amount ≡ pos p)
    × (offer.interest_rate ≡ pos r)
    × (offer.duration ≡ pos d)
    × (offer.funded_at ≡ pos f)
    × (1 ≤ d)
    × (1 ≤ f)

-- The yield by one formula: linear in the whole seconds since the funding, of which at most the
-- duration counts.
abbrev pub linear_yield : (p r d f now_ms : ℕ) → ℕ
linear_yield p r d f now_ms = (p * r / 10000) * min (now_ms / 1000 - f) d / d

total_yield-pos :
    (offer : FinancingOffer) (p r : ℕ)
    → offer.amount ≡ pos p
    → offer.interest_rate ≡ pos r
    → total_yield_stroops offer ≡ pos (p * r / 10000)
unfolding total_yield_stroops
total_yield-pos offer p r ep er = rw (ep, er, *ℤ-pos p r, /ℤ-pos (p * r) 10000)

elapsed-pos :
    (offer : FinancingOffer) (f now : ℕ)
    → offer.funded_at ≡ pos f
    → elapsed_secs offer now ≡ now / 1000 - f
unfolding ◌-ℤ◌
elapsed-pos offer f now e = ground arith

share_all : (t e d : ℕ) → 1 ≤ d → d ≤ e → t * min e d / d ≡ t
share_all t e d dpos h =
    ap (λ m. t * m / d) (let m : min e d ≡ d = omega arith in m) ∙ mul-div_cancel t dpos

share_none : (t m d : ℕ) → t ≡ 0 → t * m / d ≡ 0
share_none t m d h = ap (λ n. n / d) (let z : t * m ≡ 0 = rw h (zero-mul m) in z) ∙ zero-div d

-- For a funded offer with a principal and a rate that are not negative, the yield earned so far is
-- the linear formula.
yield_earned-linear_yield :
    (offer : FinancingOffer) (p r d f now_ms : ℕ)
    → IsFundedOffer offer p r d f
    → yield_earned_stroops offer now_ms ≡ pos (linear_yield p r d f now_ms)
unfolding yield_earned_stroops
yield_earned-linear_yield offer p r d f now_ms (ep, er, ed, ef, dpos, fpos) =
    let t = p * r / 10000 in
    let e = now_ms / 1000 - f in
    let total = total_yield-pos offer p r ep er in
    let elapsed = elapsed-pos offer f now_ms ef in
    let nothing = share_none t (min e d) d in
    elim (Bool-cases (leb d e)) [
      | inl over ↦ let full = share_all t e d dpos (leb→le d e over) in ground arith
      | inr running ↦
          let m : min e d ≡ e = ground arith in
          let part : total_yield_stroops offer
                *ℤ pos (elapsed_secs offer now_ms)
                /ℤ floor_zero offer.duration
              ≡ pos (t * min e d / d) =
            ap₂ (λ n k. n *ℤ pos (elapsed_secs offer now_ms) /ℤ k) total (ap floor_zero ed)
            ∙ ap (λ n. pos t *ℤ pos n /ℤ d) (elapsed ∙ sym m)
            ∙ ap (λ n. n /ℤ d) (*ℤ-pos t (min e d))
            ∙ /ℤ-pos (t * min e d) d in
          ground arith
    ]

share_mono : (a b d : ℕ) → 1 ≤ d → a ≤ b → a / d ≤ b / d
share_mono a b d dpos h = (le-div_iff_mul-le dpos).1 (le_trans (div-mul-le_self a d) h)

linear_yield_mono :
    (t d m n : ℕ) → 1 ≤ d → m ≤ n → (t * min m d / d ≤ t * min n d / d) × (t * min n d / d ≤ t)
linear_yield_mono t d m n dpos h = (
  share_mono (t * min m d) (t * min n d) d dpos (mul-le-mul_left t (omega arith)),
  subst (λ k. t * min n d / d ≤ k) (mul-div_cancel t dpos)
      (share_mono (t * min n d) (t * d) d dpos (mul-le-mul_left t (omega arith))),
)

-- The yield that a funded offer has earned never shrinks as time passes, is never negative, and
-- never exceeds the total yield that was agreed, which it is at the end of the offer's duration, if
-- the principal and the rate are not negative.
pub yield_earned_grows :
    (offer : FinancingOffer) (p r d f now later : ℕ)
    → IsFundedOffer offer p r d f
    → now ≤ later
    → (pos 0 ≤ℤ yield_earned_stroops offer now)
      × (yield_earned_stroops offer now ≤ℤ yield_earned_stroops offer later)
      × (yield_earned_stroops offer later ≤ℤ total_yield_stroops offer)
      × (yield_earned_stroops offer ((f + d) * 1000) ≡ total_yield_stroops offer)
yield_earned_grows offer p r d f now later funded h =
    let (ep, er, ed, ef, dpos, fpos) = funded in
    let t = p * r / 10000 in
    let total = total_yield-pos offer p r ep er in
    let before = yield_earned-linear_yield offer p r d f now funded in
    let after = yield_earned-linear_yield offer p r d f later funded in
    let at_end = yield_earned-linear_yield offer p r d f ((f + d) * 1000) funded in
    let (grows, small) =
      linear_yield_mono t d (now / 1000 - f) (later / 1000 - f) dpos (omega arith) in
    let reached : t * min ((f + d) * 1000 / 1000 - f) d / d ≡ t =
      share_all t ((f + d) * 1000 / 1000 - f) d dpos (omega arith) in
    (
      ground (arith, before),
      rw (before, after) (omega (arith, grows)),
      rw (after, total) (omega (arith, small)),
      at_end ∙ ap pos reached ∙ sym total,
    )
