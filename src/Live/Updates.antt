-- ===== src/Live/Updates.antt =====
-- What the live portfolio's updates do.
use invofi.Prelude.{
  ℕ, String, ◌≡◌, ◌⊎◌, refl, inl, inr, Bool, true, some, List, [], ◌∷◌, map, All, filterb, not, all,
  arith, str_eq, Bool-cases, if◌then◌else◌,
}
use invofi.Prelude.Int.{ℤ, pos, ◌≤ℤ◌, ◌-ℤ◌, ltb_ℤ, ltb_ℤ_iff, int_laws}
use invofi.Types.{FinancingOffer}
use invofi.Live.{
  total_due_stroops, total_yield_stroops, remaining_stroops, LivePosition, LiveChange,
  position_updated, yield_calculated, repayment_received, LivePositionUpdate, LivePortfolioState,
  LivePortfolioAction, connect, load_positions, update, set_loading, set_error, reset,
  initial_live_portfolio_state, derive_live_position, repaid_after, apply_change, apply_update,
  update_positions, merged_fields, live_portfolio_reducer, or_else,
}

-- The amounts that are shown are those of the position's own offer.
abbrev pub IsDerived : LivePosition → Type 0
IsDerived position =
    (position.total_due ≡ total_due_stroops position.offer)
    × (position.remaining ≡ remaining_stroops position.offer)

-- Applying actions, each with the clock's reading at it.
unfoldable pub reduce_all : List (ℕ × LivePortfolioAction) → LivePortfolioState → LivePortfolioState
reduce_all [] state = state
reduce_all ((clock, action) ∷ actions) state =
    reduce_all actions (live_portfolio_reducer clock state action)

apply_change-IsDerived :
    (position : LivePosition) (change : LiveChange) (now : ℕ)
    → IsDerived position
    → IsDerived (apply_change position change now)
unfolding apply_change derive_live_position remaining_stroops total_due_stroops total_yield_stroops
apply_change-IsDerived position (position_updated fields) now h = (refl, refl)
apply_change-IsDerived position (yield_calculated e) now h = h
apply_change-IsDerived position (repayment_received a r f) now h = (refl, refl)

update_positions-IsDerived :
    (u : LivePositionUpdate) (clock : ℕ) (positions : List LivePosition)
    → All IsDerived positions
    → All IsDerived (update_positions u clock positions).1
unfolding update_positions apply_update
update_positions-IsDerived u clock [] h = tt
update_positions-IsDerived u clock (p ∷ ps) (h, hs) =
    elim (Bool-cases (str_eq p.offer.id u.position_id)) [
      | inl e ↦ rw e (
        apply_change-IsDerived p u.change (or_else u.updated_at clock) h,
        update_positions-IsDerived u clock ps hs,
      )
      | inr e ↦ rw e (h, update_positions-IsDerived u clock ps hs)
    ]

IsDerived-All :
    (clock : ℕ) (offers : List FinancingOffer)
    → All IsDerived (map (λ offer. derive_live_position offer clock clock) offers)
unfolding derive_live_position
IsDerived-All clock [] = tt
IsDerived-All clock (offer ∷ offers) = ((refl, refl), IsDerived-All clock offers)

reducer-IsDerived :
    (clock : ℕ) (state : LivePortfolioState) (action : LivePortfolioAction)
    → All IsDerived state.positions
    → All IsDerived (live_portfolio_reducer clock state action).positions
unfolding live_portfolio_reducer initial_live_portfolio_state
reducer-IsDerived clock state (connect c t) h = h
reducer-IsDerived clock state (load_positions offers) h = IsDerived-All clock offers
reducer-IsDerived clock state (update u) h =
    elim (Bool-cases (update_positions u clock state.positions).0) [
      | inl e ↦ rw e (update_positions-IsDerived u clock state.positions h)
      | inr e ↦ rw e h
    ]
reducer-IsDerived clock state (set_loading l) h = h
reducer-IsDerived clock state (set_error e) h = h
reducer-IsDerived clock state reset h = tt

reduce_all-IsDerived :
    (actions : List (ℕ × LivePortfolioAction)) (state : LivePortfolioState)
    → All IsDerived state.positions
    → All IsDerived (reduce_all actions state).positions
unfolding reduce_all
reduce_all-IsDerived [] state h = h
reduce_all-IsDerived ((clock, action) ∷ actions) state h =
    reduce_all-IsDerived actions _ (reducer-IsDerived clock state action h)

-- After any actions from the initial state, the total due and the remaining claim that a position
-- shows are those of its own offer: streamed updates and full loads never drift apart.
pub positions-IsDerived :
    (actions : List (ℕ × LivePortfolioAction))
    → All IsDerived (reduce_all actions initial_live_portfolio_state).positions
unfolding initial_live_portfolio_state
positions-IsDerived actions = reduce_all-IsDerived actions initial_live_portfolio_state tt

-- A repayment that says what remains can be delivered again, at any later time, without changing
-- the offer once more; and no such repayment lowers what counts as repaid.
pub repayment_idempotent :
    (p : LivePosition) (amount remaining : ℤ) (fully : Bool) (now later : ℕ)
    → let change = repayment_received amount (some remaining) fully in
      ((apply_change (apply_change p change now) change later).offer
        ≡ (apply_change p change now).offer)
      × (p.offer.amount_repaid ≤ℤ (apply_change p change now).offer.amount_repaid)
unfolding apply_change derive_live_position repaid_after total_due_stroops total_yield_stroops
repayment_idempotent p amount remaining fully now later = (ground arith, ground arith)

claim_lem :
    (d a r : ℤ)
    → pos 0 ≤ℤ r
    → r ≤ℤ (if ltb_ℤ a d then d -ℤ a else pos 0)
    → let b = if ltb_ℤ a (d -ℤ r) then d -ℤ r else a in (if ltb_ℤ b d then d -ℤ b else pos 0) ≡ r
claim_lem d a r h small = elim (Bool-cases (ltb_ℤ a d)) [
  | inl below ↦ elim (Bool-cases (ltb_ℤ a (d -ℤ r))) [
    | inl e ↦ grind (int_laws, ltb_ℤ_iff a d, ltb_ℤ_iff a (d -ℤ r), ltb_ℤ_iff (d -ℤ r) d)
    | inr e ↦ grind (int_laws, ltb_ℤ_iff a d, ltb_ℤ_iff a (d -ℤ r), ltb_ℤ_iff (d -ℤ r) d)
  ]
  | inr over ↦ elim (Bool-cases (ltb_ℤ a (d -ℤ r))) [
    | inl e ↦ grind (int_laws, ltb_ℤ_iff a d, ltb_ℤ_iff a (d -ℤ r), ltb_ℤ_iff (d -ℤ r) d)
    | inr e ↦ grind (int_laws, ltb_ℤ_iff a d, ltb_ℤ_iff a (d -ℤ r), ltb_ℤ_iff (d -ℤ r) d)
  ]
]

-- A repayment that says that `r` remains, at least 0 and at most what remained before, leaves a
-- remaining claim of exactly `r`.
pub repayment_remaining :
    (p : LivePosition) (amount r : ℤ) (fully : Bool) (now : ℕ)
    → pos 0 ≤ℤ r
    → r ≤ℤ remaining_stroops p.offer
    → (apply_change p (repayment_received amount (some r) fully) now).remaining ≡ r
unfolding apply_change derive_live_position repaid_after remaining_stroops total_due_stroops
    total_yield_stroops
repayment_remaining p amount r fully now h small =
    claim_lem (total_due_stroops p.offer) p.offer.amount_repaid r h small

-- The positions other than the update's.
abbrev pub others : String → List LivePosition → List LivePosition
others id positions = filterb (λ p. not (str_eq p.offer.id id)) positions

apply_change-id :
    (p : LivePosition) (change : LiveChange) (now : ℕ)
    → (apply_change p change now).offer.id ≡ p.offer.id
unfolding apply_change derive_live_position merged_fields
apply_change-id p (position_updated fields) now = refl
apply_change-id p (yield_calculated e) now = refl
apply_change-id p (repayment_received a r f) now = refl

-- An update changes no position but those with the id that it names, and keeps the positions' ids
-- and order; without such a position it changes nothing.
pub update_positions_local :
    (u : LivePositionUpdate) (clock : ℕ) (ps : List LivePosition)
    → let (changed, after) = update_positions u clock ps in
      (others u.position_id after ≡ others u.position_id ps)
      × (map (λ p. p.offer.id) after ≡ map (λ p. p.offer.id) ps)
      × (changed ≡ not (all (λ p. not (str_eq p.offer.id u.position_id)) ps))
      × ((changed ≡ true) ⊎ (after ≡ ps))
unfolding update_positions apply_update
update_positions_local u clock [] = (refl, refl, refl, inr refl)
update_positions_local u clock (p ∷ ps) =
    let (others_same, ids, changed, kept) = update_positions_local u clock ps in
    let same = apply_change-id p u.change (or_else u.updated_at clock) in
    elim (Bool-cases (str_eq p.offer.id u.position_id)) [
      | inl e ↦ (ground arith, ground arith, ground arith, inl (ground arith))
      | inr e ↦ (ground arith, ground arith, ground arith, ground arith)
    ]
