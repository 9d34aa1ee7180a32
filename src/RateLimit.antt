-- ===== src/RateLimit.antt =====
-- invofi/apps/frontend/src/lib/rate-limit.ts: the fixed-window rate limiter of the API routes. The
-- module's `buckets` is the state; `now` is `Date.now()`.
mod Tests
pub mod Windows
pub mod Limit
use invofi.Prelude.{
  ℕ, ◌+◌, String, Bool, true, false, not, ◌&&◌, ◌==◌, Option, none, some, List, [], ◌∷◌, length,
  filterb, leb, ltb, if◌then◌else◌,
}
use invofi.Prelude.Text.{codes, is_space}
use invofi.Validation.{split}
use invofi.Prelude.Int.{ℤ, pos, ◌-ℤ◌}
use invofi.Prelude.Map.{Map, get, set, delete}

pub record RateLimitBucket : Type 0 where
  pub count : ℕ
  pub reset_at : ℕ

pub record RateLimitResult : Type 0 where
  pub allowed : Bool
  pub remaining : ℤ
  pub reset_at : ℕ

-- The options after their defaults are put in.
pub record RateLimitOptions : Type 0 where
  pub limit : ℕ
  pub window_ms : ℕ
  pub max_tracked_keys : ℕ

abbrev pub default_options : RateLimitOptions
default_options = record { limit = 10; window_ms = 60000; max_tracked_keys = 5000 }

abbrev pub Buckets : Type 0
Buckets = Map RateLimitBucket

unfoldable pub sweep_expired : ℕ → Buckets → Buckets
sweep_expired now buckets = filterb (λ entry. ltb now entry.1.reset_at) buckets

abbrev pub denied : ℕ → RateLimitResult
denied reset_at = record { allowed = false; remaining = pos 0; reset_at = reset_at }

-- A hit on a bucket whose window is open.
unfoldable pub hit_open :
    String → RateLimitOptions → RateLimitBucket → Buckets → RateLimitResult × Buckets
hit_open key options bucket buckets =
    if leb options.limit bucket.count then (denied bucket.reset_at, buckets) else (
      record {
        allowed = true;
        remaining = pos options.limit -ℤ pos (bucket.count + 1);
        reset_at = bucket.reset_at;
      },
      set key (record bucket { count = bucket.count + 1 }) buckets,
    )

-- The table after an expired bucket of the key is dropped and, if it is full, it is swept.
unfoldable pub make_room :
    String → RateLimitOptions → ℕ → Option RateLimitBucket → Buckets → Buckets
make_room key options now existing buckets =
    let kept : Buckets = elim existing [ none ↦ buckets | some _ ↦ delete key buckets ] in
    if leb options.max_tracked_keys (length kept) then sweep_expired now kept else kept

-- The first hit of a window: it is denied if the table is full of open windows.
unfoldable pub hit_fresh : String → RateLimitOptions → ℕ → Buckets → RateLimitResult × Buckets
hit_fresh key options now buckets =
    if leb options.max_tracked_keys (length buckets)
    then (denied (now + options.window_ms), buckets)
    else (
      record {
        allowed = true;
        remaining = pos options.limit -ℤ pos 1;
        reset_at = now + options.window_ms;
      },
      set key (record { count = 1; reset_at = now + options.window_ms }) buckets,
    )

unfoldable pub check_rate_limit :
    String → RateLimitOptions → ℕ → Buckets → RateLimitResult × Buckets
check_rate_limit key options now buckets = elim (get key buckets) [
  | none ↦ hit_fresh key options now (make_room key options now none buckets)
  | some bucket ↦
      if ltb now bucket.reset_at
      then hit_open key options bucket buckets
      else hit_fresh key options now (make_room key options now (some bucket) buckets)
]

unfoldable pub reset_rate_limits_for_tests : Buckets → Buckets
reset_rate_limits_for_tests buckets = []

unfoldable pub trim_start : List ℕ → List ℕ
trim_start [] = []
trim_start (c ∷ s) = let rest = trim_start s in if is_space c then rest else c ∷ s

unfoldable pub trim_end : List ℕ → List ℕ
trim_end [] = []
trim_end (c ∷ s) = let rest = trim_end s in if is_space c && length rest == 0 then [] else c ∷ rest

abbrev pub trim : List ℕ → List ℕ
trim s = trim_end (trim_start s)

-- `forwardedFor.split(',')[0]`
unfoldable pub first_part : List ℕ → List ℕ
first_part s = elim (split b',' s) [ [] ↦ [] | part ∷ _ ↦ part ]

-- A header that is absent reads as the empty text, which the source treats alike.
abbrev pub header_text : Option (List ℕ) → List ℕ
header_text none = []
header_text (some s) = s

-- `headers` looks a header up; the texts are code points.
unfoldable pub get_client_ip : (String → Option (List ℕ)) → List ℕ
get_client_ip headers =
    let forwarded = trim (first_part (header_text (headers "x-forwarded-for"))) in
    let real_ip = trim (header_text (headers "x-real-ip")) in
    if not (length forwarded == 0)
    then forwarded
    else (if not (length real_ip == 0) then real_ip else codes "unknown")
