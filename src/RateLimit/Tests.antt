-- ===== src/RateLimit/Tests.antt =====
-- Runs of the rate limiter, and instances of the theorems at them.
use invofi.Prelude.{
  ℕ, ◌≤◌, ◌≡◌, refl, String, Option, some, none, List, [], ◌∷◌, arith, if◌then◌else◌, str_eq,
  length,
}
use invofi.Prelude.Int.{◌-ℤ◌}
use invofi.Prelude.Map.{get, set, delete}
use invofi.Prelude.Text.{codes}
use invofi.Validation.{split, add_char}
use invofi.RateLimit.{
  RateLimitOptions, Buckets, check_rate_limit, hit_open, hit_fresh, make_room, sweep_expired,
  get_client_ip, first_part, trim_start, trim_end,
}
use invofi.RateLimit.Windows.{Hit, allowed_hits, after_hits, after_hits-bounded}
use invofi.RateLimit.Limit.{allowed_hits-limit}

abbrev small : RateLimitOptions
small = record { limit = 3; window_ms = 100; max_tracked_keys = 2 }

abbrev table : Buckets
table =
    ("a", record { count = 1; reset_at = 150 }) ∷ ("b", record { count = 1; reset_at = 60 }) ∷ []

-- Four calls of "a", and one of "c", which takes the place of "b" in the full table.
abbrev hits : List Hit
hits =
    record { key = "a"; now = 60 }
    ∷ record { key = "c"; now = 61 }
    ∷ record { key = "a"; now = 62 }
    ∷ record { key = "a"; now = 63 }
    ∷ record { key = "a"; now = 149 }
    ∷ []

hits_run :
    after_hits small hits table
    ≡ ("a", record { count = 3; reset_at = 150 }) ∷ ("c", record { count = 1; reset_at = 161 }) ∷ []
unfolding after_hits check_rate_limit hit_open hit_fresh make_room sweep_expired get set delete ◌-ℤ◌
hits_run = refl

-- At 150 the window of "a" is over; its first call opens another one.
abbrev later_hits : List Hit
later_hits =
    record { key = "a"; now = 150 }
    ∷ record { key = "c"; now = 161 }
    ∷ record { key = "a"; now = 162 }
    ∷ record { key = "a"; now = 163 }
    ∷ record { key = "a"; now = 249 }
    ∷ []

allowed_hits-limit_example : allowed_hits "a" small later_hits table ≤ 3
allowed_hits-limit_example =
    allowed_hits-limit "a" small 150 later_hits table ((λ e. omega arith), ((λ e. omega arith), tt))
      (ground arith)

after_hits-bounded_example : length (after_hits small hits table) ≤ 2
after_hits-bounded_example = after_hits-bounded small hits table (omega arith)

abbrev headers : String → Option (List ℕ)
headers name = if str_eq name "x-forwarded-for" then some (codes " 1.2.3.4 , 10.0.0.1") else none

client_ip_run : get_client_ip headers ≡ codes "1.2.3.4"
unfolding get_client_ip first_part trim_start trim_end split add_char
client_ip_run = refl
