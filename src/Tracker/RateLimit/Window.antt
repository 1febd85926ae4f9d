-- ===== src/Tracker/RateLimit/Window.antt =====
-- The limit holds over every window of a minute.
use raag.Prelude.{
  ℕ, ◌+◌, ◌≤◌, ◌<◌, ◌≡◌, refl, Str, ◌==◌, eq_iff, Bool, true, false, List, [], ◌∷◌, ◌++◌, ltb,
  length, length-append, length-retain-le, arith, if◌then◌else◌,
}
use raag.Prelude.Dict.{get, get-put}
use raag.Clock.{rate_limit_window}
use raag.Tracker.RateLimit.{
  RateLimiter, rate_limit_max_registrations, new_rate_limiter, times, recent, allow,
}

-- A call by an address at a time.
pub record Attempt : Type 0 where
  pub ip : Str
  pub at : ℕ

abbrev note : Bool → Str → Str → ℕ → List ℕ → List ℕ
note true ip j t ts = if ip == j then ts ++ t ∷ [] else ts
note false ip j t ts = ts

-- The limiter after some calls, with the times at which each address was let through.
unfoldable pub run : List Attempt → RateLimiter → (Str → List ℕ) → RateLimiter × (Str → List ℕ)
run [] rl granted = (rl, granted)
run (a ∷ rest) rl granted =
    let (rl', done) = allow a.ip a.at rl in run rest rl' (λ j. note done a.ip j a.at (granted j))

-- Calls come in the order of their times, the first not before `from` and the last not after `to`.
abbrev pub InOrder : ℕ → ℕ → List Attempt → Type 0
InOrder from to [] = from ≤ to
InOrder from to (a ∷ rest) = (from ≤ a.at) × InOrder a.at to rest

recent-append : (now : ℕ) (xs ys : List ℕ) → recent now (xs ++ ys) ≡ recent now xs ++ recent now ys
recent-append now [] ys = refl
recent-append now (x ∷ xs) ys = ground (arith, recent-append now xs ys)

recent-recent :
    (from now : ℕ) (xs : List ℕ) → from ≤ now → recent now (recent from xs) ≡ recent now xs
recent-recent from now [] h = refl
recent-recent from now (x ∷ xs) h = ground (arith, recent-recent from now xs h)

-- The limiter keeps what was granted within the last minute, and never more than the limit.
record Inv (from : ℕ) (rl : RateLimiter) (granted : Str → List ℕ) : Type 0 where
  kept : (j : Str) (now : ℕ) → from ≤ now → recent now (times rl j) ≡ recent now (granted j)
  bounded : (j : Str) → length (times rl j) ≤ rate_limit_max_registrations

times-allow :
    (a : Attempt) (rl : RateLimiter) (j : Str)
    → times (allow a.ip a.at rl).0 j ≡ (
        if (allow a.ip a.at rl).1
        then (if a.ip == j then recent a.at (times rl j) ++ a.at ∷ [] else times rl j)
        else times rl j)
unfolding allow times
times-allow a rl j =
    ground
      (arith, eq_iff a.ip j, get-put a.ip j (recent a.at (times rl a.ip) ++ a.at ∷ []) rl.requests)

allow-limit :
    (a : Attempt) (rl : RateLimiter)
    → (allow a.ip a.at rl).1 ≡ true
    → length (recent a.at (times rl a.ip)) < rate_limit_max_registrations
unfolding allow times
allow-limit a rl h = ground arith

allow-Inv :
    (a : Attempt) (from : ℕ) (rl : RateLimiter) (granted : Str → List ℕ)
    → from ≤ a.at
    → Inv from rl granted
    → Inv a.at (allow a.ip a.at rl).0 (λ j. note (allow a.ip a.at rl).1 a.ip j a.at (granted j))
allow-Inv a from rl granted h v = record {
  kept = λ j now later. ground (
    arith,
    times-allow a rl j,
    recent-append now (recent a.at (times rl j)) (a.at ∷ []),
    recent-append now (granted j) (a.at ∷ []),
    recent-recent a.at now (times rl j),
    v.kept j now,
  );
  bounded = λ j. ground (
    arith,
    eq_iff a.ip j,
    times-allow a rl j,
    allow-limit a rl,
    length-append (recent a.at (times rl j)) (a.at ∷ []),
    v.bounded j,
  );
}

run-Inv :
    (calls : List Attempt) (from to : ℕ) (rl : RateLimiter) (granted : Str → List ℕ)
    → InOrder from to calls
    → Inv from rl granted
    → Inv to (run calls rl granted).0 (run calls rl granted).1
unfolding run
run-Inv [] from to rl granted o v = record {
  kept = λ j now h. v.kept j now (omega arith);
  bounded = v.bounded;
}
run-Inv (a ∷ rest) from to rl granted o v =
    run-Inv rest a.at to _ _ o.1 (allow-Inv a from rl granted o.0 v)

new-Inv : Inv 0 new_rate_limiter (λ j. [])
unfolding new_rate_limiter times get
new-Inv = record { kept = λ j now h. refl; bounded = λ j. omega arith }

-- Whatever calls are made, in the order of time, no address is let through more than ten times
-- within the minute before any moment that is not before the last call.
pub rate_limited :
    (calls : List Attempt) (to : ℕ) (ip : Str)
    → InOrder 0 to calls
    → length (recent to ((run calls new_rate_limiter (λ j. [])).1 ip))
      ≤ rate_limit_max_registrations
rate_limited calls to ip o =
    let v = run-Inv calls 0 to new_rate_limiter (λ j. []) o new-Inv in
    let final = run calls new_rate_limiter (λ j. []) in
    rw (← v.kept ip to (omega arith)) (
      omega (
        arith,
        v.bounded ip,
        length-retain-le (λ t. ltb to (t + rate_limit_window)) (times final.0 ip),
      ))

-- After any calls in the order of time, the next call is let through exactly if its address was let
-- through fewer than ten times in the minute before it: refused calls do not count.
pub allow_exact :
    (calls : List Attempt) (to now : ℕ) (ip : Str)
    → InOrder 0 to calls
    → to ≤ now
    → let (rl, granted) = run calls new_rate_limiter (λ j. []) in
      (allow ip now rl).1 ≡ ltb (length (recent now (granted ip))) rate_limit_max_registrations
unfolding allow
allow_exact calls to now ip o later =
    let v = run-Inv calls 0 to new_rate_limiter (λ j. []) o new-Inv in
    rw (← v.kept ip now later) (ground arith)
