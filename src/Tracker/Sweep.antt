-- ===== src/Tracker/Sweep.antt =====
-- tracker/server.go, cleanupOldPeers and cleanupOldNonces: one tick of the ticker.
use raag.Prelude.{
  ℕ, ◌+◌, ◌≡◌, refl, Str, eq_iff, Bool, false, [], ◌∷◌, Option, none, some, ltb, arith,
  if◌then◌else◌,
}
use raag.Prelude.Dict.{Dict, get, has, Distinct}
use raag.Clock.{peer_timeout, nonce_expiry}
use raag.Tracker.State.{Tracker, RegisteredPeer}

-- A loop over a map that deletes the entries that are too old.
unfoldable pub sweep : {V : Type 0} → (V → Bool) → Dict V → Dict V
sweep stale [] = []
sweep stale ((k, v) ∷ m) = let rest = sweep stale m in if stale v then rest else (k, v) ∷ rest

abbrev pub is_stale_peer : ℕ → RegisteredPeer → Bool
is_stale_peer now p = ltb (p.last_seen + peer_timeout) now

abbrev pub is_stale_nonce : ℕ → ℕ → Bool
is_stale_nonce now used_at = ltb (used_at + nonce_expiry) now

unfoldable pub cleanup_old_nonces : ℕ → Tracker → Tracker
unfolding sweep
cleanup_old_nonces now t = record t {
  used_token_nonces = sweep (is_stale_nonce now) t.used_token_nonces;
}

unfoldable pub cleanup_old_peers : ℕ → Tracker → Tracker
unfolding sweep cleanup_old_nonces
cleanup_old_peers now t =
    cleanup_old_nonces now (record t { peers = sweep (is_stale_peer now) t.peers })

abbrev pub unless_stale : {V : Type 0} → (V → Bool) → Option V → Option V
unless_stale stale none = none
unless_stale stale (some v) = if stale v then none else some v

has-sweep :
    {V : Type 0} (stale : V → Bool) (j : Str) (m : Dict V)
    → has j m ≡ false
    → has j (sweep stale m) ≡ false
unfolding sweep get
has-sweep stale j [] h = refl
has-sweep stale j ((k, v) ∷ m) h = ground (arith, has-sweep stale j m)

pub sweep-Distinct :
    {V : Type 0} (stale : V → Bool) (m : Dict V) → Distinct m → Distinct (sweep stale m)
unfolding sweep
sweep-Distinct stale [] d = tt
sweep-Distinct stale ((k, v) ∷ m) d =
    ground (arith, has-sweep stale k m d.0, sweep-Distinct stale m d.1)

pub get-sweep :
    {V : Type 0} (stale : V → Bool) (j : Str) (m : Dict V)
    → Distinct m
    → get j (sweep stale m) ≡ unless_stale stale (get j m)
unfolding sweep get
get-sweep stale j [] d = refl
get-sweep stale j ((k, v) ∷ m) d =
    ground (arith, eq_iff k j, get-sweep stale j m d.1, has-sweep stale k m d.0)

-- A tick of the cleanup removes exactly the peers not seen for more than ten minutes and the
-- nonces used more than a day ago, and keeps the other entries as they are, if no key stands
-- twice in the two maps.
pub cleanup_old_peers_lem :
    (now : ℕ) (t : Tracker) (j : Str)
    → Distinct t.peers
    → Distinct t.used_token_nonces
    → (get j (cleanup_old_peers now t).peers ≡ unless_stale (is_stale_peer now) (get j t.peers))
      × (get j (cleanup_old_peers now t).used_token_nonces
          ≡ unless_stale (is_stale_nonce now) (get j t.used_token_nonces))
unfolding cleanup_old_peers
cleanup_old_peers_lem now t j dp dn = (
  get-sweep (is_stale_peer now) j t.peers dp,
  get-sweep (is_stale_nonce now) j t.used_token_nonces dn,
)

-- An entry that is not stale survives a sweep.
pub get-sweep_fresh :
    {V : Type 0} (stale : V → Bool) (j : Str) (v : V) (m : Dict V)
    → get j m ≡ some v
    → stale v ≡ false
    → get j (sweep stale m) ≡ some v
unfolding sweep get
get-sweep_fresh stale j v [] e h = cc
get-sweep_fresh stale j v ((i, w) ∷ m) e h = ground (arith, eq_iff i j, get-sweep_fresh stale j v m)
