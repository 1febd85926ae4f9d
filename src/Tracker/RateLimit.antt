-- ===== src/Tracker/RateLimit.antt =====
-- tracker/server.go, RateLimiter.
pub mod Window
use raag.Prelude.{
  ℕ, ◌+◌, Str, Bool, true, false, List, [], ◌∷◌, ◌++◌, Option, none, some, ltb, leb, length, retain,
  if◌then◌else◌,
}
use raag.Prelude.Dict.{Dict, get, put}
use raag.Clock.{rate_limit_window}

abbrev pub rate_limit_max_registrations : ℕ
rate_limit_max_registrations = 10

pub record RateLimiter : Type 0 where
  pub requests : Dict (List ℕ)

unfoldable pub new_rate_limiter : RateLimiter
new_rate_limiter = record { requests = [] }

-- A missing key reads as the empty slice.
abbrev or_nil : Option (List ℕ) → List ℕ
or_nil none = []
or_nil (some ts) = ts

unfoldable pub times : RateLimiter → Str → List ℕ
times rl ip = or_nil (get ip rl.requests)

-- t.After(windowStart)
abbrev pub recent : ℕ → List ℕ → List ℕ
recent now = retain (λ t. ltb now (t + rate_limit_window))

unfoldable pub allow : Str → ℕ → RateLimiter → RateLimiter × Bool
unfolding times
allow ip now rl =
    let valid = recent now (times rl ip) in
    if leb rate_limit_max_registrations (length valid)
    then (rl, false)
    else (record rl { requests = put ip (valid ++ now ∷ []) rl.requests }, true)
