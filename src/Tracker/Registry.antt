-- ===== src/Tracker/Registry.antt =====
-- What the registry gives away: every address names the peer that it stands under.
use raag.Prelude.{ℕ, zero, suc, sym, Bool, List, [], ◌∷◌, All, arith, take}
use mathlib.Core.Path.{subst}
use raag.Prelude.Dict.{Dict}
use raag.Auth.{Crypto}
use raag.Tracker.Request.{Addresses}
use raag.Tracker.State.{Tracker, RegisteredPeer}
use raag.Tracker.Register.Own.{Values, HasOwn, Names, register-Values}
use raag.Tracker.Register.Replay.{Event, registers, sweeps, step, run}
use raag.Tracker.Serve.{
  PeerEntry, handle_get_peers, handle_get_peers_lem, entries, max_peers_response,
}
use raag.Tracker.Sweep.{sweep, is_stale_peer, cleanup_old_peers, cleanup_old_nonces}

sweep-Values :
    {V : Type 0} (P : V → Type 0) (stale : V → Bool) (m : Dict V)
    → Values P m
    → Values P (sweep stale m)
unfolding sweep
sweep-Values P stale [] h = tt
sweep-Values P stale ((k, v) ∷ m) h = ground (arith, sweep-Values P stale m h.1)

module _ (n : Addresses) (k : Crypto) where
  step-Values :
      (e : Event) (t : Tracker) → Values (HasOwn n) t.peers → Values (HasOwn n) (step n k e t).peers
  unfolding step cleanup_old_peers cleanup_old_nonces
  step-Values (registers r now) t h = register-Values n k r now t h
  step-Values (sweeps now) t h = sweep-Values (HasOwn n) (is_stale_peer now) t.peers h

  run-Values :
      (es : List Event) (t : Tracker)
      → Values (HasOwn n) t.peers
      → Values (HasOwn n) (run n k es t).peers
  unfolding run
  run-Values [] t h = h
  run-Values (e ∷ es) t h = run-Values es (step n k e t) (step-Values e t h)

abbrev pub IsOwnEntry : Addresses → PeerEntry → Type 0
IsOwnEntry n p = Names n p.peer_id p.addrs

entries-All :
    (n : Addresses) (m : Dict RegisteredPeer) → Values (HasOwn n) m → All (IsOwnEntry n) (entries m)
entries-All n [] h = tt
entries-All n ((j, p) ∷ m) h = (h.0, entries-All n m h.1)

take-All :
    (n : Addresses) (i : ℕ) (ps : List PeerEntry)
    → All (IsOwnEntry n) ps
    → All (IsOwnEntry n) (take i ps)
take-All n zero ps h = tt
take-All n (suc i) [] h = tt
take-All n (suc i) (p ∷ ps) h = (h.0, take-All n i ps h.1)

-- After any requests to register and cleanups of a tracker whose registry was in order, such as an
-- empty one, every address that it gives away is one of the peer that it is given for.
pub given_addresses_own :
    (n : Addresses) (k : Crypto) (es : List Event) (t : Tracker)
    → Values (HasOwn n) t.peers
    → All (IsOwnEntry n) (handle_get_peers (run n k es t))
given_addresses_own n k es t h =
    subst (All (IsOwnEntry n)) (sym (handle_get_peers_lem (run n k es t))) (
      take-All n max_peers_response (entries (run n k es t).peers)
        (entries-All n (run n k es t).peers (run-Values n k es t h)))
