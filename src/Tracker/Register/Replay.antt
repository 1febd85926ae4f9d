-- ===== src/Tracker/Register/Replay.antt =====
-- A nonce that was used is refused for a day.
use mathlib.Core.Path.{subst}
use raag.Prelude.{
  ℕ, ◌+◌, ◌≤◌, ◌≡◌, ◌≢◌, ◌∙◌, refl, sym, ap, Str, eq_iff, List, [], ◌∷◌, Option, none, some, Result,
  ok, err, arith, All, Result-cases, Option-cases, take, inl, inr,
}
use raag.Prelude.Dict.{get, get-put}
use raag.Auth.{Crypto, AuthToken, TrustedKeyManager, deserialize_token}
use raag.Clock.{nonce_expiry}
use raag.Tracker.RateLimit.{allow}
use raag.Tracker.Request.{extract_remote_ip, Request, Registration, Addresses}
use raag.Tracker.State.{Tracker, is_nonce_valid}
use raag.Tracker.Register.{
  Refusal, max_register_body, store_peer, authenticate, admit, handle_register_peer, continue,
}
use raag.Tracker.Register.Capacity.{Same, admit-Same}
use raag.Tracker.Register.Accepted.{admit_sound}
use raag.Tracker.Sweep.{cleanup_old_peers, is_stale_nonce, get-sweep_fresh}

-- What happens to a tracker: a request to register, or a tick of the cleanup.
pub data Event : Type 0 where
  registers : Request → ℕ → Event
  sweeps : ℕ → Event

module _ (n : Addresses) (k : Crypto) where
  unfoldable pub step : Event → Tracker → Tracker
  step (registers r now) t = (handle_register_peer n k r now t).0
  step (sweeps now) t = cleanup_old_peers now t

  unfoldable pub run : List Event → Tracker → Tracker
  unfolding step
  run [] t = t
  run (e ∷ es) t = run es (step e t)

  -- A nonce is recorded as used at a time.
  abbrev pub IsUsed : Str → ℕ → Tracker → Type 0
  IsUsed nonce used_at t = get nonce t.used_token_nonces ≡ some used_at

  is_nonce_valid-IsUsed :
      (nonce other : Str) (used_at now : ℕ) (t : Tracker)
      → IsUsed nonce used_at t
      → IsUsed nonce used_at (is_nonce_valid other now t).0
  unfolding is_nonce_valid
  is_nonce_valid-IsUsed nonce [] used_at now t h = h
  is_nonce_valid-IsUsed nonce (c ∷ s) used_at now t h =
      ground (arith, eq_iff (c ∷ s) nonce, get-put (c ∷ s) nonce now t.used_token_nonces)

  authenticate-IsUsed :
      (nonce : Str) (used_at : ℕ) (mgr : Option TrustedKeyManager) (req : Registration) (now : ℕ)
      (t : Tracker)
      → IsUsed nonce used_at t
      → IsUsed nonce used_at (authenticate n k mgr req now t).0
  unfolding authenticate
  authenticate-IsUsed nonce used_at none req now t h = h
  authenticate-IsUsed nonce used_at (some mgr) req now t h =
      elim (Result-cases (deserialize_token k req.auth_data)) [
        | inl (token, f) ↦ ground (arith, is_nonce_valid-IsUsed nonce token.nonce used_at now t h)
        | inr (x, f) ↦ ground arith
      ]

  admit-IsUsed :
      (nonce : Str) (used_at : ℕ) (r : Request) (now : ℕ) (t : Tracker)
      → IsUsed nonce used_at t
      → IsUsed nonce used_at (admit n k r now t).0
  unfolding admit
  admit-IsUsed nonce used_at r now t h =
      elim (Option-cases (n.decode_registration (take max_register_body r.body))) [
        | inl e ↦ ground arith
        | inr (req, e) ↦ ground (
          arith,
          authenticate-IsUsed nonce used_at t.trusted_key_mgr req now
              (record t { rate_limiter = (allow (extract_remote_ip n r) now t.rate_limiter).0 }) h,
        )
      ]

  store_peer-IsUsed :
      (nonce : Str) (used_at : ℕ) (req : Registration) (addrs : List Str) (now : ℕ) (t : Tracker)
      → IsUsed nonce used_at t
      → IsUsed nonce used_at (store_peer req addrs now t).0
  unfolding store_peer
  store_peer-IsUsed nonce used_at req addrs now t h = ground arith

  -- No sweep comes more than a day after a time.
  abbrev pub Within : ℕ → Event → Type 0
  Within used_at (registers r now) = Unit
  Within used_at (sweeps now) = now ≤ used_at + nonce_expiry

  record Holds (nonce : Str) (used_at : ℕ) (mgr : TrustedKeyManager) (t : Tracker) : Type 0 where
    is_used : IsUsed nonce used_at t
    trusting : t.trusted_key_mgr ≡ some mgr

  step-Holds :
      (nonce : Str) (used_at : ℕ) (mgr : TrustedKeyManager) (e : Event) (t : Tracker)
      → Within used_at e
      → Holds nonce used_at mgr t
      → Holds nonce used_at mgr (step e t)
  unfolding step handle_register_peer store_peer cleanup_old_peers
  step-Holds nonce used_at mgr (registers r now) t w h =
      go (admit n k r now t) (admit-Same n k r now t) (admit-IsUsed nonce used_at r now t h.is_used)
    where
      go :
          (a : Tracker × Result Refusal (Registration × List Str))
          → Same t a.0
          → IsUsed nonce used_at a.0
          → Holds nonce used_at mgr (continue a (λ e. store_peer e.0 e.1 now)).0
      go (u, ok (req, addrs)) s v = ground (arith, h.trusting)
      go (u, err x) s v = record { is_used = v; trusting = s.mgr ∙ h.trusting }
  step-Holds nonce used_at mgr (sweeps now) t w h = record {
    is_used =
        get-sweep_fresh (is_stale_nonce now) nonce used_at t.used_token_nonces h.is_used
          (ground arith);
    trusting = h.trusting;
  }

  run-Holds :
      (nonce : Str) (used_at : ℕ) (mgr : TrustedKeyManager) (es : List Event) (t : Tracker)
      → All (Within used_at) es
      → Holds nonce used_at mgr t
      → Holds nonce used_at mgr (run es t)
  unfolding run
  run-Holds nonce used_at mgr [] t w h = h
  run-Holds nonce used_at mgr (e ∷ es) t w h =
      run-Holds nonce used_at mgr es (step e t) w.1 (step-Holds nonce used_at mgr e t w.0 h)

  mgr_of :
      (r : Request) (now : ℕ) (t u : Tracker) (entry : Registration × List Str)
      → admit n k r now t ≡ (u, ok entry)
      → u.trusted_key_mgr ≡ t.trusted_key_mgr
  mgr_of r now t u entry e =
      subst
        (λ (a : Tracker × Result Refusal (Registration × List Str)).
          a.0.trusted_key_mgr ≡ t.trusted_key_mgr)
        e (admit-Same n k r now t).mgr

  -- The token of a request is used once: after a request with it was admitted, no request with a
  -- token of the same nonce is admitted, whatever requests and cleanups come in between, until
  -- a cleanup more than a day later; the tracker must trust certain keys.
  pub admit_once :
      (r r' : Request) (now later : ℕ) (t u u' : Tracker) (mgr : TrustedKeyManager)
      (req req' : Registration) (addrs addrs' : List Str) (es : List Event)
      (token token' : AuthToken)
      → t.trusted_key_mgr ≡ some mgr
      → admit n k r now t ≡ (u, ok (req, addrs))
      → deserialize_token k req.auth_data ≡ ok token
      → All (Within now) es
      → admit n k r' later (run es u) ≡ (u', ok (req', addrs'))
      → deserialize_token k req'.auth_data ≡ ok token'
      → token.nonce ≢ token'.nonce
  admit_once r r' now later t u u' mgr req req' addrs addrs' es token token' trusting first carried
        w second carried' same =
      let (one, a) = (admit_sound n k r now t u req addrs first).2 mgr trusting in
      let held = run-Holds one.nonce now mgr es u w (record {
        is_used = a.used_up;
        trusting = (mgr_of r now t u (req, addrs) first) ∙ trusting;
      }) in
      let (two, b) =
        (admit_sound n k r' later (run es u) u' req' addrs' second).2 mgr held.trusting in
      ground (arith, a.carried, b.carried, held.is_used, b.fresh)

  -- The same, by the text that carries the token.
  pub admit-same_data :
      (r r' : Request) (now later : ℕ) (t u u' : Tracker) (mgr : TrustedKeyManager)
      (req req' : Registration) (addrs addrs' : List Str) (es : List Event)
      → t.trusted_key_mgr ≡ some mgr
      → admit n k r now t ≡ (u, ok (req, addrs))
      → All (Within now) es
      → admit n k r' later (run es u) ≡ (u', ok (req', addrs'))
      → req.auth_data ≢ req'.auth_data
  admit-same_data r r' now later t u u' mgr req req' addrs addrs' es trusting first w second same =
      let (one, a) = (admit_sound n k r now t u req addrs first).2 mgr trusting in
      admit_once r r' now later t u u' mgr req req' addrs addrs' es one one trusting first a.carried
        w second (ap (deserialize_token k) (sym same) ∙ a.carried) refl
