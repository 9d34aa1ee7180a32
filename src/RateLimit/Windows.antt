-- ===== src/RateLimit/Windows.antt =====
-- The limit within a window, and the size of the table.
use invofi.Prelude.{
  ℕ, ◌+◌, ◌-◌, ◌≤◌, ◌<◌, String, ◌≡◌, ◌≢◌, inl, inr, Option, none, some, List, [], ◌∷◌, length, All,
  arith, ltb, str_eq, eq_iff, Bool-cases, Option-cases, if◌then◌else◌, ◌&&◌,
}
use invofi.Prelude.Map.{
  get, set, delete, get-set_self, get-set_ne, get-delete_ne, length-delete, length-set_new,
  length-set_old,
}
use invofi.RateLimit.{
  RateLimitBucket, RateLimitOptions, Buckets, sweep_expired, hit_open, make_room, hit_fresh,
  check_rate_limit,
}

-- A call for a key at a time.
pub record Hit : Type 0 where
  pub key : String
  pub now : ℕ

-- The number of the calls for `key` that are allowed.
unfoldable pub allowed_hits : String → RateLimitOptions → List Hit → Buckets → ℕ
allowed_hits key options [] buckets = 0
allowed_hits key options (h ∷ hs) buckets =
    let (r, after) = check_rate_limit h.key options h.now buckets in
    (if str_eq h.key key && r.allowed then 1 else 0) + allowed_hits key options hs after

-- The table after the calls.
unfoldable pub after_hits : RateLimitOptions → List Hit → Buckets → Buckets
after_hits options [] buckets = buckets
after_hits options (h ∷ hs) buckets =
    after_hits options hs (check_rate_limit h.key options h.now buckets).1

get-sweep_expired :
    (key : String) (now : ℕ) (bucket : RateLimitBucket) (m : Buckets)
    → get key m ≡ some bucket
    → now < bucket.reset_at
    → get key (sweep_expired now m) ≡ some bucket
unfolding sweep_expired get
get-sweep_expired key now bucket [] e h = e
get-sweep_expired key now bucket ((k, b) ∷ m) e h =
    ground (arith, get-sweep_expired key now bucket m)

length-sweep_expired : (now : ℕ) (m : Buckets) → length (sweep_expired now m) ≤ length m
unfolding sweep_expired
length-sweep_expired now [] = omega arith
length-sweep_expired now ((k, b) ∷ m) = ground (arith, length-sweep_expired now m)

get-make_room :
    (key other : String) (options : RateLimitOptions) (now : ℕ) (existing : Option RateLimitBucket)
    (bucket : RateLimitBucket) (m : Buckets)
    → other ≢ key
    → get key m ≡ some bucket
    → now < bucket.reset_at
    → get key (make_room other options now existing m) ≡ some bucket
unfolding make_room
get-make_room key other options now none bucket m ne e h =
    ground (arith, get-sweep_expired key now bucket m)
get-make_room key other options now (some b) bucket m ne e h =
    ground (arith, get-sweep_expired key now bucket (delete other m), get-delete_ne other key m)

get-hit_fresh :
    (key other : String) (options : RateLimitOptions) (now : ℕ) (m : Buckets)
    → other ≢ key
    → get key (hit_fresh other options now m).1 ≡ get key m
unfolding hit_fresh
get-hit_fresh key other options now m ne =
    ground
      (arith, get-set_ne other key (record { count = 1; reset_at = now + options.window_ms }) m)

-- A call for another key leaves an open bucket alone.
check_rate_limit_other :
    (key other : String) (options : RateLimitOptions) (now : ℕ) (bucket : RateLimitBucket)
    (m : Buckets)
    → other ≢ key
    → get key m ≡ some bucket
    → now < bucket.reset_at
    → get key (check_rate_limit other options now m).1 ≡ some bucket
unfolding check_rate_limit hit_open
check_rate_limit_other key other options now bucket m ne e h = elim (Option-cases (get other m)) [
  | inl missing ↦ ground (
    arith,
    get-hit_fresh key other options now (make_room other options now none m),
    get-make_room key other options now none bucket m,
  )
  | inr (b, present) ↦ ground (
    arith,
    get-hit_fresh key other options now (make_room other options now (some b) m),
    get-make_room key other options now (some b) bucket m,
    get-set_ne other key (record b { count = b.count + 1 }) m,
  )
]

-- A call for the key of an open bucket: it is denied at the limit, and counted below it.
check_rate_limit_self :
    (key same : String) (options : RateLimitOptions) (now : ℕ) (bucket : RateLimitBucket)
    (m : Buckets)
    → same ≡ key
    → get key m ≡ some bucket
    → now < bucket.reset_at
    → ((check_rate_limit same options now m).0.allowed ≡ ltb bucket.count options.limit)
      × (get key (check_rate_limit same options now m).1
          ≡ some (
              if ltb bucket.count options.limit
              then record bucket { count = bucket.count + 1 }
              else bucket))
unfolding check_rate_limit hit_open
check_rate_limit_self key same options now bucket m eq e h =
    let found : get same m ≡ some bucket = rw eq e in
    let counted : get key (set same (record bucket { count = bucket.count + 1 }) m)
        ≡ some (record bucket { count = bucket.count + 1 }) =
      rw eq (get-set_self key (record bucket { count = bucket.count + 1 }) m) in
    ground arith

-- While the window of a key's bucket is open, the calls for the key that are still allowed are as
-- many as the limit leaves: whatever calls for whatever keys are made at times before the window's
-- end, also when the table is full and swept, no more than the limit less the count are allowed.
pub allowed_hits-open :
    (key : String) (options : RateLimitOptions) (hs : List Hit) (bucket : RateLimitBucket)
    (m : Buckets)
    → get key m ≡ some bucket
    → All (λ h. h.now < bucket.reset_at) hs
    → allowed_hits key options hs m ≤ options.limit - bucket.count
unfolding allowed_hits
allowed_hits-open key options [] bucket m e within = omega arith
allowed_hits-open key options (h ∷ hs) bucket m e (soon, within) =
    elim (Bool-cases (str_eq h.key key)) [
      | inr other ↦
          let ne : h.key ≢ key = ground (arith, eq_iff h.key key) in
          let kept = check_rate_limit_other key h.key options h.now bucket m ne e soon in
          let rest = allowed_hits-open key options hs bucket _ kept within in ground arith
      | inl same ↦
          let eq : h.key ≡ key = ground (arith, eq_iff h.key key) in
          let (allowed, kept) = check_rate_limit_self key h.key options h.now bucket m eq e soon in
          elim (Bool-cases (ltb bucket.count options.limit)) [
            | inl below ↦
                let after : get key (check_rate_limit h.key options h.now m).1
                    ≡ some (record bucket { count = bucket.count + 1 }) =
                  ground arith in
                let rest =
                  allowed_hits-open key options hs (record bucket { count = bucket.count + 1 }) _
                    after within in
                ground arith
            | inr full ↦
                let after : get key (check_rate_limit h.key options h.now m).1 ≡ some bucket =
                  ground arith in
                let rest = allowed_hits-open key options hs bucket _ after within in ground arith
          ]
    ]

length-set_le :
    (key : String) (b : RateLimitBucket) (m : Buckets) → length (set key b m) ≤ length m + 1
length-set_le key b m = elim (Option-cases (get key m)) [
  | inl e ↦ omega (arith, length-set_new key b m e)
  | inr (w, e) ↦ omega (arith, length-set_old key b w m e)
]

length-hit_fresh :
    (key : String) (options : RateLimitOptions) (now : ℕ) (m : Buckets)
    → length m ≤ options.max_tracked_keys
    → length (hit_fresh key options now m).1 ≤ options.max_tracked_keys
unfolding hit_fresh
length-hit_fresh key options now m h =
    ground (arith, length-set_le key (record { count = 1; reset_at = now + options.window_ms }) m)

length-make_room :
    (key : String) (options : RateLimitOptions) (now : ℕ) (existing : Option RateLimitBucket)
    (m : Buckets)
    → length (make_room key options now existing m) ≤ length m
unfolding make_room
length-make_room key options now none m = ground (arith, length-sweep_expired now m)
length-make_room key options now (some b) m =
    ground (arith, length-sweep_expired now (delete key m), length-delete key m)

length-check_rate_limit :
    (key : String) (options : RateLimitOptions) (now : ℕ) (m : Buckets)
    → length m ≤ options.max_tracked_keys
    → length (check_rate_limit key options now m).1 ≤ options.max_tracked_keys
unfolding check_rate_limit hit_open
length-check_rate_limit key options now m h = elim (Option-cases (get key m)) [
  | inl missing ↦
      let small = length-make_room key options now none m in
      let fresh =
        length-hit_fresh key options now (make_room key options now none m) (omega arith) in
      ground arith
  | inr (b, present) ↦
      let small = length-make_room key options now (some b) m in
      let fresh =
        length-hit_fresh key options now (make_room key options now (some b) m) (omega arith) in
      let same = length-set_old key (record b { count = b.count + 1 }) b m present in ground arith
]

-- Whatever calls are made, the table never tracks more keys than `maxTrackedKeys`, if it does not to
-- begin with.
pub after_hits-bounded :
    (options : RateLimitOptions) (hs : List Hit) (m : Buckets)
    → length m ≤ options.max_tracked_keys
    → length (after_hits options hs m) ≤ options.max_tracked_keys
unfolding after_hits
after_hits-bounded options [] m h = h
after_hits-bounded options (hit ∷ hs) m h =
    after_hits-bounded options hs _ (length-check_rate_limit hit.key options hit.now m h)
