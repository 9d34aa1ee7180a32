-- ===== src/Throttle/Spacing.antt =====
-- Deliveries of one key are an interval apart.
use invofi.Prelude.{
  ℕ, ◌+◌, ◌≤◌, String, ◌≡◌, ◌≢◌, ◌⊎◌, refl, sym, subst, ◌∙◌, inl, inr, true, none, some, List, [],
  ◌∷◌, All, All-map, arith, eq_iff, Bool-cases, Option-cases, str_eq,
}
use invofi.Prelude.Map.{Map, get, set, delete, get-set_self, get-set_ne, get-delete_ne}
use invofi.Throttle.{
  Delivery, Throttle, create_per_key_throttle, deliver, dispatch, fire, stop, Step, calling, firing,
  waiting, stopping, Steps, done, next,
}

module _ {T : Type 0} (interval : ℕ) where
  -- An earlier delivery is of another key, or at least an interval before.
  abbrev pub Apart : Delivery T → Delivery T → Type 0
  Apart d e = (e.key ≢ d.key) ⊎ (e.at + interval ≤ d.at)

  abbrev pub IsSpaced : List (Delivery T) → Type 0
  IsSpaced [] = Unit
  IsSpaced (d ∷ ds) = All (Apart d) ds × IsSpaced ds

  -- The interval after a delivery is over, or a timer of the key is armed until then at least.
  abbrev Guarded : Map ℕ → ℕ → Delivery T → Type 0
  Guarded timers now d =
      (d.at + interval ≤ now)
      ⊎ ((due : ℕ) × (get d.key timers ≡ some due) × (d.at + interval ≤ due))

  abbrev Holds : Throttle T → Type 0
  Holds s = IsSpaced s.delivered × ((s.stopped ≡ true) ⊎ All (Guarded s.timers s.now) s.delivered)

  -- Without a timer of the key, its interval is over.
  unarmed-Apart :
      (s : Throttle T) (key : String) (value : T) (d : Delivery T)
      → get key s.timers ≡ none
      → Guarded s.timers s.now d
      → Apart (record { key = key; value = value; at = s.now }) d
  unarmed-Apart s key value d e (inl over) = inr over
  unarmed-Apart s key value d e (inr (due, armed, _)) = inl (λ same. ground (arith, same))

  armed-Guarded :
      (s : Throttle T) (key : String) (d : Delivery T)
      → get key s.timers ≡ none
      → Guarded s.timers s.now d
      → Guarded (set key (s.now + interval) s.timers) s.now d
  armed-Guarded s key d e (inl over) = inl over
  armed-Guarded s key d e (inr (due, armed, late)) =
      let ne : key ≢ d.key = λ same. ground (arith, same) in
      inr (due, ground (arith, get-set_ne key d.key (s.now + interval) s.timers ne), late)

  dispatch-Holds :
      (key : String) (value : T) (s : Throttle T) → Holds s → Holds (dispatch interval key value s)
  unfolding dispatch
  dispatch-Holds key value s (spaced, inl stopped) =
      let same : dispatch interval key value s ≡ s = ground arith in
      subst Holds (sym same) (spaced, inl stopped)
  dispatch-Holds key value s (spaced, inr guarded) = elim (Bool-cases s.stopped) [
    | inl stopped ↦
        let same : dispatch interval key value s ≡ s = ground arith in
        subst Holds (sym same) (spaced, inl stopped)
    | inr running ↦ elim (Option-cases (get key s.timers)) [
      | inr (due, armed) ↦
          let kept : dispatch interval key value s
              ≡ record s { pending = set key value s.pending } =
            ground arith in
          subst Holds (sym kept) (spaced, inr guarded)
      | inl unarmed ↦
          let new : dispatch interval key value s
              ≡ record (deliver key value s) { timers = set key (s.now + interval) s.timers } =
            ground arith in
          subst Holds (sym new) (
            (All-map _ _ (λ d. unarmed-Apart s key value d unarmed) s.delivered guarded, spaced),
            inr (
              inr (s.now + interval, get-set_self key (s.now + interval) s.timers, omega arith),
              All-map _ _ (λ d. armed-Guarded s key d unarmed) s.delivered guarded,
            ),
          )
    ]
  ]

  -- A timer that is due can go: its key's interval is over.
  disarmed-Guarded :
      (s : Throttle T) (key : String) (due : ℕ) (d : Delivery T)
      → get key s.timers ≡ some due
      → due ≤ s.now
      → Guarded s.timers s.now d
      → Guarded (delete key s.timers) s.now d
  disarmed-Guarded s key due d e late (inl over) = inl over
  disarmed-Guarded s key due d e late (inr (at, armed, after)) =
      elim (Bool-cases (str_eq key d.key)) [
        | inl same ↦
            let eq : key ≡ d.key = (eq_iff key d.key).0 same in
            let times : at ≡ due = cc in inl (omega arith)
        | inr other ↦
            let ne : key ≢ d.key = ground (arith, eq_iff key d.key) in
            inr (at, get-delete_ne key d.key s.timers ne ∙ armed, after)
      ]

  fire-Holds :
      (key : String) (due : ℕ) (s : Throttle T)
      → get key s.timers ≡ some due
      → due ≤ s.now
      → Holds s
      → Holds (fire interval key s)
  unfolding fire
  fire-Holds key due s e late (spaced, ok) =
      let after : (s.stopped ≡ true) ⊎ All (Guarded (delete key s.timers) s.now) s.delivered =
        elim ok [
          | inl stopped ↦ inl stopped
          | inr guarded ↦
              inr (All-map _ _ (λ d. disarmed-Guarded s key due d e late) s.delivered guarded)
        ] in
      elim (Option-cases (get key s.pending)) [
        | inl nothing ↦
            let gone : fire interval key s ≡ record s { timers = delete key s.timers } =
              ground arith in
            subst Holds (sym gone) (spaced, after)
        | inr (latest, waits) ↦
            let rest = record s { timers = delete key s.timers; pending = delete key s.pending } in
            let sent : fire interval key s ≡ dispatch interval key latest rest = ground arith in
            subst Holds (sym sent) (dispatch-Holds key latest rest (spaced, after))
      ]

  later-Guarded :
      (s : Throttle T) (t : ℕ) (d : Delivery T)
      → Guarded s.timers s.now d
      → Guarded s.timers (s.now + t) d
  later-Guarded s t d (inl over) = inl (omega arith)
  later-Guarded s t d (inr armed) = inr armed

  Step-Holds : (s t : Throttle T) → Step interval s t → Holds s → Holds t
  unfolding stop
  Step-Holds _ _ (calling key value s) h = dispatch-Holds key value s h
  Step-Holds _ _ (firing key due s e late) h = fire-Holds key due s e late h
  Step-Holds _ _ (waiting t s) (spaced, inl stopped) = (spaced, inl stopped)
  Step-Holds _ _ (waiting t s) (spaced, inr guarded) =
      (spaced, inr (All-map _ _ (λ d. later-Guarded s t d) s.delivered guarded))
  Step-Holds _ _ (stopping s) (spaced, ok) = (spaced, inl refl)

  Steps-Holds : (s t : Throttle T) → Steps interval s t → Holds s → Holds t
  Steps-Holds _ _ (done s) h = h
  Steps-Holds _ _ (next s t u steps step) h = Step-Holds t u step (Steps-Holds s t steps h)

  -- However calls, timers, the passing of time and a stop follow each other on a new dispatcher, two
  -- deliveries of the same key are at least the interval apart, until a flush.
  pub deliveries-IsSpaced :
      (now : ℕ) (s : Throttle T)
      → Steps interval (create_per_key_throttle now) s
      → IsSpaced s.delivered
  unfolding create_per_key_throttle
  deliveries-IsSpaced now s steps = (Steps-Holds _ s steps (tt, inr tt)).0
