-- ===== src/Live/Engine/Ticks.antt =====
-- The ticks of the accrual send only what has changed.
use invofi.Prelude.{ℕ, ◌≡◌, ◌≢◌, Bool, false, ◌&&◌, List, [], ◌∷◌, All}
use invofi.Prelude.Int.{ℤ}
use invofi.Prelude.Map.{Map, get}
use invofi.Types.{FinancingOffer}
use invofi.Live.{is_active_offer, yield_earned_stroops}
use invofi.Live.Engine.{earned_differs}

-- The offer accrues, and has earned another amount than the last one sent.
abbrev has_news : ℕ → Map ℤ → FinancingOffer → Bool
has_news now_ms m offer =
    is_active_offer offer && earned_differs (get offer.id m) (yield_earned_stroops offer now_ms)

abbrev AllQuiet : ℕ → Map ℤ → List FinancingOffer → Type 0
AllQuiet now_ms m offers = All (λ o. has_news now_ms m o ≡ false) offers

-- No two offers have the same id.
abbrev pub AllDistinct : List FinancingOffer → Type 0
AllDistinct [] = Unit
AllDistinct (offer ∷ offers) = All (λ o. offer.id ≢ o.id) offers × AllDistinct offers
