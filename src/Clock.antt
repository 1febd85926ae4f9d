-- ===== src/Clock.antt =====
-- The durations of internal/constants/constants.go and tracker/server.go, in nanoseconds. A time is
-- the number of nanoseconds since some moment before the program ran; `now.Sub(t) > d` is written
-- `t + d < now`, and `t.After(now.Add(-d))` is `now < t + d`, which say the same over the integers.
use raag.Prelude.{ℕ, ◌*◌, ◌/◌}

abbrev pub second : ℕ
second = 1000000000

abbrev pub minute : ℕ
minute = 60 * second

abbrev pub hour : ℕ
hour = 60 * minute

abbrev pub rate_limit_window : ℕ
rate_limit_window = minute

abbrev pub peer_timeout : ℕ
peer_timeout = 10 * minute

abbrev pub nonce_expiry : ℕ
nonce_expiry = 24 * hour

-- time.Time.Unix
unfoldable pub unix : ℕ → ℕ
unix t = t / second
