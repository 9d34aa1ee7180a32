-- ===== src/RateLimit/Limit.antt =====
-- The limit over the length of a window.
use invofi.Prelude.{
  ℕ, ◌+◌, ◌≤◌, ◌<◌, String, Bool, true, false, ◌≡◌, ◌≢◌, ◌⊎◌, refl, sym, subst, inl, inr, Option,
  none, some, List, [], ◌∷◌, length, All, All-map, arith, ltb, leb, max, str_eq, eq_iff, Bool-cases,
  Option-cases, if◌then◌else◌,
}
use invofi.Prelude.Map.{
  get, set, delete, get-set_self, AllEntries, AllEntries-get, AllEntries-set, AllEntries-delete,
}
use invofi.RateLimit.{
  RateLimitBucket, RateLimitOptions, RateLimitResult, Buckets, sweep_expired, hit_open, make_room,
  hit_fresh, check_rate_limit,
}
use invofi.RateLimit.Windows.{Hit, allowed_hits, allowed_hits-open}

module _ (P : String → RateLimitBucket → Type 0) where
  AllEntries-sweep_expired :
      (now : ℕ) (m : Buckets) → AllEntries P m → AllEntries P (sweep_expired now m)
  unfolding sweep_expired
  AllEntries-sweep_expired now [] h = tt
  AllEntries-sweep_expired now ((k, b) ∷ m) h = elim (Bool-cases (ltb now b.reset_at)) [
    | inl later ↦ rw later (h.0, AllEntries-sweep_expired now m h.1)
    | inr past ↦ rw past (AllEntries-sweep_expired now m h.1)
  ]

  swept :
      (b : Bool) (now : ℕ) (m : Buckets)
      → AllEntries P m
      → AllEntries P (if b then sweep_expired now m else m)
  swept true now m h = AllEntries-sweep_expired now m h
  swept false now m h = h

  AllEntries-make_room :
      (key : String) (options : RateLimitOptions) (now : ℕ) (existing : Option RateLimitBucket)
      (m : Buckets)
      → AllEntries P m
      → AllEntries P (make_room key options now existing m)
  unfolding make_room
  AllEntries-make_room key options now none m h = swept _ now m h
  AllEntries-make_room key options now (some b) m h =
      swept _ now (delete key m) (AllEntries-delete P key m h)

-- A first hit is denied, which changes nothing, or it opens a window that it is counted in.
abbrev FreshHit : String → RateLimitOptions → ℕ → Buckets → RateLimitResult × Buckets → Type 0
FreshHit key options now m (r, after) =
    ((r.allowed ≡ false) × (after ≡ m))
    ⊎ (after ≡ set key (record { count = 1; reset_at = now + options.window_ms }) m)

hit_fresh-FreshHit :
    (key : String) (options : RateLimitOptions) (now : ℕ) (m : Buckets)
    → FreshHit key options now m (hit_fresh key options now m)
unfolding hit_fresh
hit_fresh-FreshHit key options now m = elim (Bool-cases (leb options.max_tracked_keys (length m))) [
  | inl many ↦ rw many (inl (refl, refl))
  | inr few ↦ rw few (inr refl)
]

-- Every bucket of the key has expired at a time.
abbrev pub IsClosed : String → ℕ → Buckets → Type 0
IsClosed key at m = AllEntries (λ k b. k ≡ key → b.reset_at ≤ at) m

IsClosed-hit_fresh :
    (key other : String) (options : RateLimitOptions) (now at : ℕ) (m : Buckets)
    → other ≢ key
    → IsClosed key at m
    → IsClosed key at (hit_fresh other options now m).1
IsClosed-hit_fresh key other options now at m ne h = elim (hit_fresh-FreshHit other options now m) [
  | inl (denied, same) ↦ subst (IsClosed key at) (sym same) h
  | inr opened ↦ subst (IsClosed key at) (sym opened) (
      AllEntries-set _ other (record { count = 1; reset_at = now + options.window_ms }) m h
        (λ e. absurd (ne e)))
]

-- A call for another key opens no window of the key.
IsClosed-other :
    (key other : String) (options : RateLimitOptions) (now at : ℕ) (m : Buckets)
    → other ≢ key
    → IsClosed key at m
    → IsClosed key at (check_rate_limit other options now m).1
unfolding check_rate_limit hit_open
IsClosed-other key other options now at m ne h = elim (Option-cases (get other m)) [
  | inl missing ↦
      rw (check_rate_limit, missing)
        (IsClosed-hit_fresh key other options now at (make_room other options now none m) ne
          (AllEntries-make_room _ other options now none m h))
  | inr (b, present) ↦ elim (Bool-cases (ltb now b.reset_at)) [
    | inr past ↦
        rw (check_rate_limit, present, past)
          (IsClosed-hit_fresh key other options now at (make_room other options now (some b) m) ne
            (AllEntries-make_room _ other options now (some b) m h))
    | inl soon ↦ elim (Bool-cases (leb options.limit b.count)) [
      | inl full ↦ rw (check_rate_limit, present, soon, full) h
      | inr below ↦
          rw (check_rate_limit, present, soon, below)
            (AllEntries-set _ other (record b { count = b.count + 1 }) m h (λ e. absurd (ne e)))
    ]
  ]
]

-- A call for a key whose window is closed: it is denied, or it opens a window.
abbrev Opens : String → RateLimitOptions → ℕ → ℕ → RateLimitResult × Buckets → Type 0
Opens key options now at (r, after) =
    ((r.allowed ≡ false) × IsClosed key at after)
    ⊎ (get key after ≡ some (record { count = 1; reset_at = now + options.window_ms }))

hit_fresh-Opens :
    (key : String) (options : RateLimitOptions) (now at : ℕ) (m : Buckets)
    → IsClosed key at m
    → Opens key options now at (hit_fresh key options now m)
hit_fresh-Opens key options now at m h = elim (hit_fresh-FreshHit key options now m) [
  | inl (denied, same) ↦ inl (denied, subst (IsClosed key at) (sym same) h)
  | inr opened ↦ inr (rw opened (get-set_self key _ m))
]

check_rate_limit-Opens :
    (key : String) (options : RateLimitOptions) (now at : ℕ) (m : Buckets)
    → at ≤ now
    → IsClosed key at m
    → Opens key options now at (check_rate_limit key options now m)
unfolding check_rate_limit
check_rate_limit-Opens key options now at m late h = elim (Option-cases (get key m)) [
  | inl missing ↦
      rw (check_rate_limit, missing)
        (hit_fresh-Opens key options now at (make_room key options now none m)
          (AllEntries-make_room _ key options now none m h))
  | inr (b, present) ↦
      let expired : b.reset_at ≤ at = AllEntries-get _ key b m h present refl in
      let past : ltb now b.reset_at ≡ false = ground (arith, expired, late) in
      rw (check_rate_limit, present, past)
        (hit_fresh-Opens key options now at (make_room key options now (some b) m)
          (AllEntries-make_room _ key options now (some b) m h))
]

-- If no window of a key is open at a time, then of the calls that are made from then on, within the
-- length of a window, for whatever keys, at most the limit is allowed for the key, or one call if the
-- limit is 0. This counts the call that opens the window, and holds also when the table is full and
-- swept.
pub allowed_hits-limit :
    (key : String) (options : RateLimitOptions) (at : ℕ) (hs : List Hit) (m : Buckets)
    → IsClosed key at m
    → All (λ h. (at ≤ h.now) × (h.now < at + options.window_ms)) hs
    → allowed_hits key options hs m ≤ max 1 options.limit
unfolding allowed_hits
allowed_hits-limit key options at [] m closed within = omega arith
allowed_hits-limit key options at (h ∷ hs) m closed (soon, within) =
    let after = (check_rate_limit h.key options h.now m).1 in
    elim (Bool-cases (str_eq h.key key)) [
      | inr other ↦
          let ne : h.key ≢ key = ground (arith, eq_iff h.key key) in
          let still = IsClosed-other key h.key options h.now at m ne closed in
          let rest = allowed_hits-limit key options at hs after still within in ground arith
      | inl same ↦
          let eq : h.key ≡ key = ground (arith, eq_iff h.key key) in
          let opens : Opens key options h.now at (check_rate_limit h.key options h.now m) =
            rw eq (check_rate_limit-Opens key options h.now at m soon.0 closed) in
          elim opens [
            | inl (denied, still) ↦
                let rest = allowed_hits-limit key options at hs after still within in ground arith
            | inr opened ↦
                let rest =
                  allowed_hits-open key options hs
                    (record { count = 1; reset_at = h.now + options.window_ms }) after opened
                    (All-map _ _ (λ k p. omega (arith, p, soon)) hs within) in
                ground arith
          ]
    ]
