-- ===== src/Discovery/Loops.antt =====
-- How long the loops around the tracker wait.
use native.Mathlib.Nat.{pow-suc}
use raag.Prelude.{
  ℕ, zero, suc, ◌*◌, ◌^◌, ◌≤◌, ◌≡◌, refl, ap, ◌∙◌, List, [], ◌∷◌, Result, length, arith, ltb,
  if◌then◌else◌,
}
use raag.Auth.{Crypto}
use raag.Clock.{second}
use raag.Discovery.{Multiaddrs}
use raag.Discovery.World.{World, Urls}
use raag.Discovery.State.{Manager}
use raag.Discovery.Backoff.{Turn, retry, next_capped, next_min}
use raag.Discovery.Register.{refresh_registration_with_retry, refresh_after}
use raag.Discovery.Connect.{discover_from_tracker_with_retry, discover_after}

-- A delay, but no more than the most.
abbrev pub capped : ℕ → ℕ → ℕ
capped most delay = if ltb most delay then most else delay

-- The closed form from the k-th delay on: the first one times 2 ^ k, but no more than the most.
abbrev pub closed : ℕ → ℕ → ℕ → ℕ → List ℕ
closed most delay k zero = []
closed most delay k (suc n) = capped most (delay * 2 ^ k) ∷ closed most delay (suc k) n

next_capped-capped : (most d : ℕ) → next_capped most (capped most d) ≡ capped most (d * 2)
unfolding next_capped
next_capped-capped most d = ground arith

next_min-next_capped : (most d : ℕ) → next_min most d ≡ next_capped most d
unfolding next_min next_capped
next_min-next_capped most d = ground arith

next_closed :
    (most delay k : ℕ)
    → next_capped most (capped most (delay * 2 ^ k)) ≡ capped most (delay * 2 ^ suc k)
next_closed most delay k =
    next_capped-capped most (delay * 2 ^ k) ∙ ap (capped most) (grind (arith, pow-suc 2 k))

module _ {S A E : Type 0} (attempt : A → S → S × Result E Unit) where
  retry-closed :
      (next : ℕ → ℕ) (most delay k now : ℕ) (turns : List (Turn A)) (s : S)
      → ((d : ℕ) → next d ≡ next_capped most d)
      → now ≡ capped most (delay * 2 ^ k)
      → let waited = (retry attempt next now turns s).waited in
        waited ≡ closed most delay k (length waited)
  unfolding retry
  retry-closed next most delay k now [] s same is = refl
  retry-closed next most delay k now (t ∷ ts) s same is = ground (
    arith,
    is,
    retry-closed next most delay (suc k) (next now) ts (attempt t.reply s).0 same
        (same now ∙ ap (next_capped most) is ∙ next_closed most delay k),
  )

start-capped : (most delay : ℕ) → delay ≤ most → delay ≡ capped most (delay * 2 ^ 0)
start-capped most delay le = ground (arith, le)

-- The delays that the two loops wait for are those of the closed form, the registration's from the
-- Manager's first delay on and the discovery's from a second on: doubled each time, and no more than
-- the greatest delay. Neither first delay may be above the greatest.
pub tracker_delays :
    {w : World} {k : Crypto} (u : Urls) (a : Multiaddrs) (turns : List (Turn (w.Host → w.Host)))
    (m : Manager w k)
    → m.retry_delay ≤ m.max_retry_delay
    → second ≤ m.max_retry_delay
    → let registering = (refresh_registration_with_retry u a turns m).waited in
      let discovering = (discover_from_tracker_with_retry u a turns m).waited in
      (registering ≡ closed m.max_retry_delay m.retry_delay 0 (length registering))
      × (discovering ≡ closed m.max_retry_delay second 0 (length discovering))
unfolding refresh_registration_with_retry discover_from_tracker_with_retry
tracker_delays u a turns m le le' = (
  ground (
    arith,
    retry-closed (refresh_after u a) (next_capped m.max_retry_delay) m.max_retry_delay m.retry_delay
        0 m.retry_delay turns m (λ d. refl) (start-capped m.max_retry_delay m.retry_delay le),
  ),
  retry-closed (discover_after u a) (next_min m.max_retry_delay) m.max_retry_delay second 0 second
      turns m (next_min-next_capped m.max_retry_delay) (start-capped m.max_retry_delay second le'),
)
